-- ===== src/Storage/Download/Sessions.antt =====
-- What becomes of the upload of a download.
use maas_site_manager.Common.{
  ℕ, ◌+◌, Bool, true, false, List, [], ◌∷◌, ◌++◌, length, ◌≡◌, refl, ap, ◌∙◌, arith, Bool-cases,
  inl, inr, ◌⊎◌, All, if◌then◌else◌,
}
use maas_site_manager.Common.Rows.{All-append}
use maas_site_manager.Storage.Download.{
  Call, create_multipart_upload_call, abort_multipart_upload_call, upload_part_call,
  complete_multipart_upload_call, patch_bytes_synced_call, S3ResourceManager, runtime_error,
  request_error, Outcome, done, raises, part_sent, closed_by, new_manager, in_progress, Patched,
  updated, gone, unexpected, Round, Ending, ended, interrupted, Downloaded, bytes_downloaded,
  cancelled, update_bytes_synced, after_patch, download, at_exit, except_abort, download_asset,
}

-- A call that neither opens nor closes an upload.
abbrev pub IsProgress : Call → Type 0
IsProgress (upload_part_call n s) = Unit
IsProgress (patch_bytes_synced_call n) = Unit
IsProgress c = ⊥

-- The upload is open, with nothing but progress since it was created.
pub record IsOpen (m : S3ResourceManager) : Type 0 where
  pub is_open : m.is_open ≡ true
  pub progress : List Call
  pub calls : m.calls ≡ create_multipart_upload_call ∷ progress
  pub only : All IsProgress progress

-- The calls are those of one upload: created, fed, and closed by `last`.
abbrev pub Closes : Call → S3ResourceManager → Type 0
Closes last m =
    (progress : List Call) × All IsProgress progress
    × (m.calls ≡ create_multipart_upload_call ∷ progress ++ last ∷ [])
    × (m.is_open ≡ false)

-- What the rounds sent.
abbrev pub total : List Round → ℕ
total [] = 0
total (r ∷ rounds) = length r.chunk + total rounds

abbrev Loop : ℕ → Outcome Downloaded → Type 0
Loop n (done (bytes_downloaded k) m) = Closes (complete_multipart_upload_call m.parts) m × (k ≡ n)
Loop n (done cancelled m) = Closes abort_multipart_upload_call m
Loop n (raises e m) = IsOpen m × (e ≡ request_error)

-- One more call that makes progress.
more :
    (m n : S3ResourceManager) (c : Call)
    → n.is_open ≡ m.is_open
    → n.calls ≡ m.calls ++ c ∷ []
    → IsProgress c
    → IsOpen m
    → IsOpen n
more m n c same calls p o = record {
  is_open = same ∙ o.is_open;
  progress = o.progress ++ c ∷ [];
  calls = calls ∙ ap (λ l. l ++ c ∷ []) o.calls;
  only = All-append IsProgress o.progress (c ∷ []) o.only (p, tt);
}

closed :
    (m n : S3ResourceManager) (c : Call)
    → n.is_open ≡ false
    → n.calls ≡ m.calls ++ c ∷ []
    → IsOpen m
    → Closes c n
closed m n c shut calls o = (o.progress, o.only, calls ∙ ap (λ l. l ++ c ∷ []) o.calls, shut)

opened :
    {A : Type 0} (m : S3ResourceManager) (taken : Bool) (rest : Outcome A)
    → m.is_open ≡ true
    → in_progress m taken rest ≡ (if taken then rest else raises request_error m)
opened m taken rest h =
    ap (λ b. if b then (if taken then rest else raises request_error m) else raises runtime_error m)
      h

patched_lem :
    (p : Patched) (next : S3ResourceManager → Outcome Downloaded) (m : S3ResourceManager) (n : ℕ)
    → (IsOpen (update_bytes_synced m) → Loop n (next (update_bytes_synced m)))
    → IsOpen m
    → Loop n (after_patch p next m)
patched_lem updated next m n rest o =
    rest (more m (update_bytes_synced m) (patch_bytes_synced_call m.bytes_sent) refl refl tt o)
patched_lem unexpected next m n rest o = (o, refl)
patched_lem (gone false) next m n rest o =
    let u = update_bytes_synced m in
    let v = more m u (patch_bytes_synced_call m.bytes_sent) refl refl tt o in
    rw (opened u false (done tt (closed_by abort_multipart_upload_call u)) v.is_open) (v, refl)
patched_lem (gone true) next m n rest o =
    let u = update_bytes_synced m in
    let v = more m u (patch_bytes_synced_call m.bytes_sent) refl refl tt o in
    rw (opened u true (done tt (closed_by abort_multipart_upload_call u)) v.is_open)
      (closed u (closed_by abort_multipart_upload_call u) abort_multipart_upload_call refl refl v)

download_lem :
    (rounds : List Round) (ending : Ending) (m : S3ResourceManager) (n : ℕ)
    → m.bytes_sent + total rounds ≡ n
    → IsOpen m
    → Loop n (download rounds ending m)
unfolding download
download_lem [] interrupted m n e o = (o, refl)
download_lem [] (ended true) m n e o =
    let c = complete_multipart_upload_call m.parts in
    rw (opened m true (done tt (closed_by c m)) o.is_open)
      (closed m (closed_by c m) c refl refl o, omega arith)
download_lem [] (ended false) m n e o =
    rw (opened m false (done tt (closed_by (complete_multipart_upload_call m.parts) m)) o.is_open)
      (o, refl)
download_lem (r ∷ rounds) ending m n e o =
    let u = part_sent r.chunk m in
    rw (opened m r.taken (done tt u) o.is_open) (elim (Bool-cases r.taken) [
      | inl takes ↦ rw takes (
          patched_lem r.patched (download rounds ending) u n
            (λ v. download_lem rounds ending (update_bytes_synced u) n (omega arith) v)
            (more m u (upload_part_call m.part_no r.chunk) refl refl tt o))
      | inr refuses ↦ rw refuses (o, refl)
    ])

-- The upload is no longer open, after a completion or an abort.
abbrev pub Shut : S3ResourceManager → Type 0
Shut m = Closes (complete_multipart_upload_call m.parts) m ⊎ Closes abort_multipart_upload_call m

abbrev Exited : Bool → ℕ → Outcome Downloaded → Type 0
Exited closes n (done (bytes_downloaded k) m) =
    Closes (complete_multipart_upload_call m.parts) m × (k ≡ n) × (closes ≡ true)
Exited closes n (done cancelled m) = Closes abort_multipart_upload_call m × (closes ≡ true)
Exited closes n (raises e m) = (IsOpen m ⊎ ((closes ≡ false) × Shut m)) × (e ≡ request_error)

at_exit-Exited :
    (closes : Bool) (n : ℕ) (out : Outcome Downloaded)
    → Loop n out
    → Exited closes n (at_exit closes out)
at_exit-Exited true n (done (bytes_downloaded k) m) (c, e) = (c, e, refl)
at_exit-Exited true n (done cancelled m) c = (c, refl)
at_exit-Exited true n (raises x m) (o, e) = (inl o, e)
at_exit-Exited false n (done (bytes_downloaded k) m) (c, e) = (inr (refl, inl c), refl)
at_exit-Exited false n (done cancelled m) c = (inr (refl, inr c), refl)
at_exit-Exited false n (raises x m) (o, e) = (inl o, refl)

-- How the whole activity ends.
abbrev pub Closed : Bool → Bool → ℕ → Outcome Downloaded → Type 0
Closed closes aborts n (done (bytes_downloaded k) m) =
    Closes (complete_multipart_upload_call m.parts) m × (k ≡ n) × (closes ≡ true)
Closed closes aborts n (done cancelled m) = Closes abort_multipart_upload_call m × (closes ≡ true)
Closed closes true n (raises request_error m) = Closes abort_multipart_upload_call m
Closed closes false n (raises request_error m) = IsOpen m
Closed closes true n (raises runtime_error m) = (closes ≡ false) × Shut m
Closed closes false n (raises runtime_error m) = (closes ≡ false) × Shut m

-- The test of the upload id finds the upload shut.
shut :
    {A : Type 0} (m : S3ResourceManager) (taken : Bool) (rest : Outcome A)
    → m.is_open ≡ false
    → in_progress m taken rest ≡ raises runtime_error m
shut m taken rest h =
    ap (λ b. if b then (if taken then rest else raises request_error m) else raises runtime_error m)
      h

Shut-is_open : (m : S3ResourceManager) → Shut m → m.is_open ≡ false
Shut-is_open m (inl (p, a, c, s)) = s
Shut-is_open m (inr (p, a, c, s)) = s

aborted_lem :
    (closes aborts : Bool) (n : ℕ) (m : S3ResourceManager)
    → IsOpen m ⊎ ((closes ≡ false) × Shut m)
    → Closed closes aborts n (except_abort aborts (raises request_error m))
aborted_lem closes true n m (inl o) =
    let c = abort_multipart_upload_call in
    rw (opened m true (done tt (closed_by c m)) o.is_open) (closed m (closed_by c m) c refl refl o)
aborted_lem closes false n m (inl o) =
    rw (opened m false (done tt (closed_by abort_multipart_upload_call m)) o.is_open) o
aborted_lem closes true n m (inr (h, s)) =
    rw (shut m true (done tt (closed_by abort_multipart_upload_call m)) (Shut-is_open m s)) (h, s)
aborted_lem closes false n m (inr (h, s)) =
    rw (shut m false (done tt (closed_by abort_multipart_upload_call m)) (Shut-is_open m s)) (h, s)

except_abort-Closed :
    (closes aborts : Bool) (n : ℕ) (out : Outcome Downloaded)
    → Exited closes n out
    → Closed closes aborts n (except_abort aborts out)
except_abort-Closed closes aborts n (done (bytes_downloaded k) m) h = h
except_abort-Closed closes aborts n (done cancelled m) h = h
except_abort-Closed closes aborts n (raises request_error m) (h, e) =
    aborted_lem closes aborts n m h
except_abort-Closed closes aborts n (raises runtime_error m) (h, e) = absurd cc

-- From the creation of the upload on, a download that answers a number of bytes has completed the
-- upload, with the parts that it lists, and the number is that of the whole stream; one that answers that
-- it is cancelled has aborted it. One that raises a client's exception has aborted it, or, if the storage
-- refuses the abort of the `except`, leaves it open. "Multipart operation is not in progress" is
-- raised only if the stream fails to close after the upload was completed or aborted. The upload is
-- completed or aborted at most once.
pub download_asset_lem :
    (closes aborts : Bool) (rounds : List Round) (ending : Ending)
    → Closed closes aborts (total rounds) (download_asset closes aborts rounds ending)
unfolding download_asset
download_asset_lem closes aborts rounds ending =
    let out = download rounds ending (new_manager true) in
    except_abort-Closed closes aborts (total rounds) (at_exit closes out) (
      at_exit-Exited closes (total rounds) out (
        download_lem rounds ending (new_manager true) (total rounds) (omega arith)
          (record { is_open = refl; progress = []; calls = refl; only = tt })))
