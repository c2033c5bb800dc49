-- ===== src/Storage/Upload/Outcome.antt =====
-- The outcome of an upload.
use maas_site_manager.Common.{
  ℕ, ◌+◌, ◌*◌, ◌≤◌, String, true, false, List, [], ◌∷◌, ◌++◌, ltb, length, length-append, ◌≡◌, refl,
  ap, ◌∙◌, sym, arith, Bool-cases, ◌⊎◌, inl, inr, All,
}
use mathlib.Core.List.{append-nil, append_assoc}
use maas_site_manager.Storage.Chunks.{Bytes, join}
use maas_site_manager.Storage.Upload.{
  UploadTarget, new_target, Upload, uploaded, file_too_large, upload_current_chunk,
  on_data_received, upload_last, receive, upload_file,
}
use maas_site_manager.Storage.Upload.Parts.{
  bodies, Numbered, IsLarge, LargeButLast, LargeButLast-append, LargeButLast-All, tagged, Inv,
  new-Inv, upload-Inv, received-Inv,
}

module _ (etag : ℕ → Bytes → String) where
  -- The storage has the whole of `s`, in parts that it takes.
  pub record IsUploaded (s : Bytes) (t : UploadTarget) : Type 0 where
    pub whole : join (bodies t.sent) ≡ s
    pub digest : t.hashed ≡ s
    pub counted : t.bytes_sent ≡ length s
    pub numbered : Numbered 1 t.sent
    pub listed : t.parts ≡ tagged etag t.sent
    pub large : LargeButLast t.sent

  IsUploaded-whole :
      (s : Bytes) (t : UploadTarget)
      → Inv etag s t
      → t.current_chunk ≡ []
      → LargeButLast t.sent
      → IsUploaded s t
  IsUploaded-whole s t inv none_left large =
      let whole : join (bodies t.sent) ≡ s =
        sym (append-nil (join (bodies t.sent)))
        ∙ ap (λ c. join (bodies t.sent) ++ c) (sym none_left)
        ∙ inv.whole in
      record {
        whole = whole;
        digest = inv.digest ∙ whole;
        counted = inv.counted ∙ ap length (inv.digest ∙ whole);
        numbered = inv.numbered;
        listed = inv.listed;
        large = large;
      }

  last-IsUploaded :
      (s c : Bytes) (t : UploadTarget)
      → Inv etag s t
      → t.current_chunk ≡ c
      → All IsLarge t.sent
      → IsUploaded s (upload_last etag t c)
  last-IsUploaded s [] t inv e large = IsUploaded-whole s t inv e (LargeButLast-All t.sent large)
  last-IsUploaded s (b ∷ c) t inv e large =
      IsUploaded-whole s (upload_current_chunk etag t) (upload-Inv etag s t inv) refl
        (LargeButLast-append (t.part_no, t.current_chunk) t.sent large)

  abbrev pub Outcome : ℕ → Bytes → Upload → Type 0
  Outcome max s o =
      ((ltb max (length s) ≡ true) × (o ≡ file_too_large))
      ⊎ ((ltb max (length s) ≡ false) × ((t : UploadTarget) × (o ≡ uploaded t) × IsUploaded s t))

  receive_lem :
      (max : ℕ) (chunks : List Bytes) (t : UploadTarget) (s : Bytes) (so_far : ℕ)
      → length s ≡ so_far
      → so_far ≤ max
      → Inv etag s t
      → All IsLarge t.sent
      → Outcome max (s ++ join chunks) (receive etag max so_far chunks t)
  unfolding receive
  receive_lem max [] t s so_far e h inv large =
      let same = append-nil s in
      inr (
        ground (arith, ap length same),
        (
          upload_last etag t t.current_chunk,
          refl,
          rw same (last-IsUploaded s t.current_chunk t inv refl large),
        ),
      )
  receive_lem max (chunk ∷ chunks) t s so_far e h inv large =
      elim (Bool-cases (ltb max (so_far + length chunk))) [
        | inl big ↦ inl (
          ground (
            arith,
            length-append s (chunk ++ join chunks),
            length-append chunk (join chunks),
            big,
          ),
          rw big refl,
        )
        | inr fits ↦
            let kept = received-Inv etag s chunk t inv large in
            let total : length (s ++ chunk) ≡ so_far + length chunk =
              omega (arith, length-append s chunk, e) in
            rw (fits, ← append_assoc s chunk (join chunks))
              (receive_lem max chunks (on_data_received etag chunk t) (s ++ chunk)
                (so_far + length chunk) total (ground (arith, fits)) kept.0 kept.1)
      ]

  -- A file that is sent in any chunks is refused exactly if it is larger than the limit. Otherwise the
  -- parts that the storage is given are the file, in order, numbered from 1 and listed under their
  -- tags; each but the last has the size that the storage asks for; and the size and the digest are
  -- those of the whole file.
  pub upload_file_lem :
      (max_upload_size_gb : ℕ) (chunks : List Bytes)
      → Outcome
          (max_upload_size_gb * 1_000_000_000)
          (join chunks)
          (upload_file etag max_upload_size_gb chunks)
  unfolding upload_file
  upload_file_lem gb chunks =
      receive_lem (gb * 1_000_000_000) chunks new_target [] 0 refl (omega arith) (new-Inv etag) tt
