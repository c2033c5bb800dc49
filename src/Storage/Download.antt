-- ===== src/Storage/Download.antt =====
-- `S3ResourceManager`, `download_asset` and `delete_item` of backend/msm/temporal/activities/images.py.
-- The calls of the storage and of the server that go through are recorded, in order. Which ones do, and
-- what the upstream sends, is given: see `Round`, `Ending` and `download_asset`, which starts from an
-- upload that the storage has created. Heartbeats and the log are left out.
pub mod Sessions
use maas_site_manager.Common.{ℕ, ◌+◌, Bool, true, false, List, [], ◌∷◌, ◌++◌, length, if◌then◌else◌}
use maas_site_manager.Storage.Chunks.{Bytes}

pub data Call : Type 0 where
  create_multipart_upload_call abort_multipart_upload_call delete_object_call : Call
  upload_part_call : ℕ → Bytes → Call
  complete_multipart_upload_call : List ℕ → Call
  patch_bytes_synced_call : ℕ → Call

-- `parts` are the numbers of the parts that are listed, and `is_open` is whether there is an upload id.
pub record S3ResourceManager : Type 0 where
  pub is_open : Bool
  pub part_no : ℕ
  pub parts : List ℕ
  pub bytes_sent : ℕ
  pub calls : List Call

-- "Multipart operation is not in progress", or an exception of a client.
pub data Exception : Type 0 where
  runtime_error request_error : Exception

pub data Outcome (A : Type 0) : Type 0 where
  done : A → S3ResourceManager → Outcome A
  raises : Exception → S3ResourceManager → Outcome A

abbrev pub and_then : {A B : Type 0} → Outcome A → (A → S3ResourceManager → Outcome B) → Outcome B
and_then (done a m) f = f a m
and_then (raises e m) f = raises e m

-- `__init__`
abbrev pub new_manager : Bool → S3ResourceManager
new_manager multipart = record {
  is_open = multipart;
  part_no = 1;
  parts = [];
  bytes_sent = 0;
  calls = if multipart then create_multipart_upload_call ∷ [] else [];
}

-- The test of the upload id that every multipart method begins with, and the client's call.
abbrev pub in_progress : {A : Type 0} → S3ResourceManager → Bool → Outcome A → Outcome A
in_progress m taken rest =
    if m.is_open then (if taken then rest else raises request_error m) else raises runtime_error m

abbrev pub part_sent : Bytes → S3ResourceManager → S3ResourceManager
part_sent chunk m = record {
  is_open = m.is_open;
  part_no = m.part_no + 1;
  parts = m.parts ++ m.part_no ∷ [];
  bytes_sent = m.bytes_sent + length chunk;
  calls = m.calls ++ upload_part_call m.part_no chunk ∷ [];
}

abbrev pub upload_part : Bytes → Bool → S3ResourceManager → Outcome Unit
upload_part chunk taken m = in_progress m taken (done tt (part_sent chunk m))

abbrev pub closed_by : Call → S3ResourceManager → S3ResourceManager
closed_by c m = record m { is_open = false; calls = m.calls ++ c ∷ [] }

abbrev pub complete_upload : Bool → S3ResourceManager → Outcome Unit
complete_upload taken m =
    in_progress m taken (done tt (closed_by (complete_multipart_upload_call m.parts) m))

abbrev pub abort_upload : Bool → S3ResourceManager → Outcome Unit
abort_upload taken m = in_progress m taken (done tt (closed_by abort_multipart_upload_call m))

-- What the server answers to `_update_bytes_synced`: 200, 404, or anything else. After a 404, whether the
-- storage takes the abort.
pub data Patched : Type 0 where
  updated unexpected : Patched
  gone : Bool → Patched

-- One chunk of the stream, whether the storage takes it, and the server's answer.
pub record Round : Type 0 where
  pub chunk : Bytes
  pub taken : Bool
  pub patched : Patched

-- The stream ends, and the storage completes the upload or not; or reading it raises.
pub data Ending : Type 0 where
  ended : Bool → Ending
  interrupted : Ending

-- The number of bytes, or -1.
pub data Downloaded : Type 0 where
  bytes_downloaded : ℕ → Downloaded
  cancelled : Downloaded

abbrev pub update_bytes_synced : S3ResourceManager → S3ResourceManager
update_bytes_synced m = record m { calls = m.calls ++ patch_bytes_synced_call m.bytes_sent ∷ [] }

abbrev pub at_end : Ending → S3ResourceManager → Outcome Downloaded
at_end interrupted m = raises request_error m
at_end (ended taken) m =
    and_then (complete_upload taken m) (λ u n. done (bytes_downloaded n.bytes_sent) n)

-- The rest of a round, by the server's answer; `next` is the rest of the loop.
abbrev pub after_patch :
    Patched → (S3ResourceManager → Outcome Downloaded) → S3ResourceManager → Outcome Downloaded
after_patch updated next m = next (update_bytes_synced m)
after_patch (gone taken) next m =
    and_then (abort_upload taken (update_bytes_synced m)) (λ u n. done cancelled n)
after_patch unexpected next m = raises request_error m

-- The body of the `async with`.
unfoldable pub download : List Round → Ending → S3ResourceManager → Outcome Downloaded
download [] ending m = at_end ending m
download (r ∷ rounds) ending m =
    and_then (upload_part r.chunk r.taken m)
      (λ u n. after_patch r.patched (download rounds ending) n)

-- The end of the `async with`, whether the body returned or raised; closing the stream may raise.
abbrev pub at_exit : Bool → Outcome Downloaded → Outcome Downloaded
at_exit true out = out
at_exit false (done d m) = raises request_error m
at_exit false (raises e m) = raises request_error m

-- `except: s3_manager.abort_upload(); raise`
abbrev pub except_abort : Bool → Outcome Downloaded → Outcome Downloaded
except_abort taken (done d m) = done d m
except_abort taken (raises e m) = and_then (abort_upload taken m) (λ u n. raises e n)

-- `closes` is whether the stream closes without an exception, and `aborts` whether the storage takes the
-- abort of the `except`.
unfoldable pub download_asset : Bool → Bool → List Round → Ending → Outcome Downloaded
download_asset closes aborts rounds ending =
    except_abort aborts (at_exit closes (download rounds ending (new_manager true)))

-- `delete_item`
pub delete_item : S3ResourceManager
delete_item = let m = new_manager false in record m { calls = m.calls ++ delete_object_call ∷ [] }
