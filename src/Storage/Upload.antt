-- ===== src/Storage/Upload.antt =====
-- `S3MultipartUploadTarget` of backend/msm/apiserver/user/handlers/images.py, and the part of
-- `post_images` that feeds it the file. The calls of the storage are recorded: `sent` are the parts
-- that it was given, with their numbers, and `etag` is what it answers. `hashed` is what the digest has
-- been updated with. The limit on the size is checked, chunk by chunk, before the target is called.
mod Parts
pub mod Outcome
use maas_site_manager.Common.{
  ℕ, suc, ◌+◌, ◌*◌, String, Bool, true, false, List, [], ◌∷◌, ◌++◌, map, ltb, length, if◌then◌else◌,
}
use maas_site_manager.Storage.Chunks.{Bytes}

-- `MIN_PART_SIZE`, 5 MiB
unfoldable pub min_part_size : ℕ
min_part_size = 5 * (1024 * 1024)

pub record UploadTarget : Type 0 where
  pub current_chunk : Bytes
  pub part_no : ℕ
  pub parts : List (ℕ × String)
  pub bytes_sent : ℕ
  pub hashed : Bytes
  pub sent : List (ℕ × Bytes)

-- `__init__`
abbrev pub new_target : UploadTarget
new_target = record {
  current_chunk = [];
  part_no = 1;
  parts = [];
  bytes_sent = 0;
  hashed = [];
  sent = [];
}

pub data Upload : Type 0 where
  uploaded : UploadTarget → Upload
  file_too_large : Upload

module _ (etag : ℕ → Bytes → String) where
  abbrev pub upload_current_chunk : UploadTarget → UploadTarget
  upload_current_chunk t = record {
    current_chunk = [];
    part_no = t.part_no + 1;
    parts = t.parts ++ (t.part_no, etag t.part_no t.current_chunk) ∷ [];
    bytes_sent = t.bytes_sent + length t.current_chunk;
    hashed = t.hashed ++ t.current_chunk;
    sent = t.sent ++ (t.part_no, t.current_chunk) ∷ [];
  }

  abbrev pub on_data_received : Bytes → UploadTarget → UploadTarget
  on_data_received chunk t =
      let u = record t { current_chunk = t.current_chunk ++ chunk } in
      if ltb (length u.current_chunk) min_part_size then u else upload_current_chunk u

  -- What is left, if anything, is the last part.
  abbrev pub upload_last : UploadTarget → Bytes → UploadTarget
  upload_last t [] = t
  upload_last t (b ∷ s) = upload_current_chunk t

  -- The loop over the stream, with the size so far.
  unfoldable pub receive : ℕ → ℕ → List Bytes → UploadTarget → Upload
  receive max so_far [] t = uploaded (upload_last t t.current_chunk)
  receive max so_far (chunk ∷ chunks) t =
      let rest = receive max (so_far + length chunk) chunks (on_data_received chunk t) in
      if ltb max (so_far + length chunk) then file_too_large else rest

  unfoldable pub upload_file : ℕ → List Bytes → Upload
  upload_file max_upload_size_gb chunks =
      receive (max_upload_size_gb * 1_000_000_000) 0 chunks new_target
