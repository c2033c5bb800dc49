-- ===== src/Storage/Tests.antt =====
-- Small files on their way.
use maas_site_manager.Common.{
  ℕ, zero, suc, ◌<◌, ◌*◌, String, true, false, some, List, [], ◌∷◌, ◌≡◌, refl, ◌⊎◌, ltb, arith,
}
use maas_site_manager.Storage.Chunks.{Bytes, take, drop, take-drop}
use maas_site_manager.Storage.Answers.{
  Message, response_start, response_body, stream_index, stream_object, received,
}
use maas_site_manager.Storage.Delivery.{stream_index-received, stream_object-delivers}
use maas_site_manager.Storage.Upload.{UploadTarget, uploaded, file_too_large, upload_file}
use maas_site_manager.Storage.Upload.Outcome.{IsUploaded, upload_file_lem}
use maas_site_manager.Storage.Download.{
  create_multipart_upload_call, upload_part_call, patch_bytes_synced_call,
  abort_multipart_upload_call, complete_multipart_upload_call, raises, runtime_error, updated, gone,
  Round, ended, done, cancelled, download, download_asset,
}
use maas_site_manager.Storage.Download.Sessions.{Closed, download_asset_lem}

abbrev document : Bytes
document = 1 ∷ 2 ∷ 3 ∷ 4 ∷ 5 ∷ []

in_twos :
    stream_index 2 document
    ≡ response_start
      ∷ response_body (1 ∷ 2 ∷ []) true
      ∷ response_body (3 ∷ 4 ∷ []) true
      ∷ response_body (5 ∷ []) true
      ∷ response_body [] false
      ∷ []
unfolding stream_index
in_twos = refl

stream_index-received_example : received (stream_index 2 document) ≡ some document
stream_index-received_example = stream_index-received 2 document (omega arith)

-- A file whose every read gives as much as is asked for.
abbrev read : ℕ → Bytes → Bytes × Bytes
read n s = (take n s, drop n s)

read-ends : (n : ℕ) (s : Bytes) → 0 < n → take n s ≡ [] → s ≡ []
read-ends zero s p h = absurd (omega arith)
read-ends (suc n) [] p h = refl
read-ends (suc n) (b ∷ s) p h = cc

stream_object-delivers_example :
    (l : List Message) × (stream_object read 6 2 document ≡ some l) × (received l ≡ some document)
stream_object-delivers_example =
    stream_object-delivers read (λ s. s) take-drop read-ends 6 2 document (omega arith)
      (omega arith)

abbrev etag : ℕ → Bytes → String
etag n s = "tag"

upload_file_lem_example :
    ((ltb (1 * 1_000_000_000) 5 ≡ true)
      × (upload_file etag 1 ((1 ∷ 2 ∷ []) ∷ (3 ∷ 4 ∷ 5 ∷ []) ∷ []) ≡ file_too_large))
    ⊎ ((ltb (1 * 1_000_000_000) 5 ≡ false)
        × ((t : UploadTarget) × (upload_file etag 1 ((1 ∷ 2 ∷ []) ∷ (3 ∷ 4 ∷ 5 ∷ []) ∷ [])
              ≡ uploaded t)
            × IsUploaded etag document t))
upload_file_lem_example = upload_file_lem etag 1 ((1 ∷ 2 ∷ []) ∷ (3 ∷ 4 ∷ 5 ∷ []) ∷ [])

-- The item goes while its second chunk is sent.
abbrev rounds : List Round
rounds =
    record { chunk = 1 ∷ 2 ∷ []; taken = true; patched = updated }
    ∷ record { chunk = 3 ∷ []; taken = true; patched = gone true }
    ∷ []

cancelled_download :
    download_asset true true rounds (ended true)
    ≡ done cancelled (record {
      is_open = false;
      part_no = 3;
      parts = 1 ∷ 2 ∷ [];
      bytes_sent = 3;
      calls =
          create_multipart_upload_call
          ∷ upload_part_call 1 (1 ∷ 2 ∷ [])
          ∷ patch_bytes_synced_call 2
          ∷ upload_part_call 2 (3 ∷ [])
          ∷ patch_bytes_synced_call 3
          ∷ abort_multipart_upload_call
          ∷ [];
    })
unfolding download_asset download
cancelled_download = refl

-- The stream of a whole download fails to close.
masked_failure :
    download_asset false true [] (ended true)
    ≡ raises runtime_error (record {
      is_open = false;
      part_no = 1;
      parts = [];
      bytes_sent = 0;
      calls = create_multipart_upload_call ∷ complete_multipart_upload_call [] ∷ [];
    })
unfolding download_asset download
masked_failure = refl

download_asset_lem_example : Closed true true 3 (download_asset true true rounds (ended true))
download_asset_lem_example = download_asset_lem true true rounds (ended true)
