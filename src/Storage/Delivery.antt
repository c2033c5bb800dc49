-- ===== src/Storage/Delivery.antt =====
-- What the streamed answers deliver.
use maas_site_manager.Common.{
  ℕ, zero, suc, ◌+◌, ◌-◌, ◌*◌, ◌≤◌, ◌<◌, true, some, List, [], ◌∷◌, ◌++◌, ◌≡◌, refl, ap, sym,
  length, length-append, arith,
}
use native.Mathlib.Nat.{div-add-mod, mod-lt}
use maas_site_manager.Storage.Chunks.{Bytes, drop, take-drop, drop-drop, length-drop}
use maas_site_manager.Storage.Answers.{
  Message, response_start, response_body, last_message, chunk_messages, chunk_count, stream_index,
  received, with_chunk, read_messages, stream_object,
}

empty : (s : Bytes) → length s ≡ 0 → s ≡ []
empty [] h = refl
empty (b ∷ s) h = absurd (omega arith)

received-chunk_messages :
    (size : ℕ) (s : Bytes) (n c off : ℕ)
    → off ≡ c * size
    → length (drop off s) ≤ n * size
    → received (chunk_messages size s n c ++ last_message ∷ []) ≡ some (drop off s)
received-chunk_messages size s zero c off e h =
    let none_left : length (drop off s) ≡ 0 = omega arith in rw (empty (drop off s) none_left) refl
received-chunk_messages size s (suc n) c off e h =
    let left = drop off s in
    let next = off + size in
    let next_left : drop size left ≡ drop next s = drop-drop off size next s refl in
    let shorter : length (drop next s) ≤ n * size =
      omega (arith, length-drop size left, ap length next_left, h) in
    let rest = received-chunk_messages size s n (c + 1) next (omega (arith, e)) shorter in
    rw (← e) (rw rest (ap some (rw (← next_left) (take-drop size left))))

chunk_count-covers : (size : ℕ) (s : Bytes) → 0 < size → length s ≤ chunk_count size s * size
chunk_count-covers size s h =
    omega (arith, div-add-mod (length s + (size - 1)) size, mod-lt (length s + (size - 1)) h)

-- The answer with an index delivers the document, for chunks of any size that is not 0.
pub stream_index-received :
    (size : ℕ) (s : Bytes) → 0 < size → received (stream_index size s) ≡ some s
unfolding stream_index
stream_index-received size s h =
    received-chunk_messages size s (chunk_count size s) 0 0 (omega arith)
      (chunk_count-covers size s h)

-- Reading: what is left of a file, that a read takes of it what it answers, and that it answers nothing
-- only at the end.
module _ {F : Type 0} (read : ℕ → F → Bytes × F) (left : F → Bytes)
    (reads : (n : ℕ) (f : F) → (read n f).0 ++ left (read n f).1 ≡ left f)
    (ends : (n : ℕ) (f : F) → 0 < n → (read n f).0 ≡ [] → left f ≡ []) where
  read_messages-delivers :
      (fuel size : ℕ) (f : F)
      → 0 < size
      → length (left f) < fuel
      → (l : List Message) × (read_messages read fuel size f ≡ some l)
        × (received (l ++ last_message ∷ []) ≡ some (left f))
  unfolding read_messages
  read_messages-delivers zero size f p h = absurd (omega arith)
  read_messages-delivers (suc fuel) size f p h =
      by_chunk (read size f).0 (reads size f) (ends size f p)
        (λ q. read_messages-delivers fuel size (read size f).1 p q)
    where
      by_chunk :
          (s : Bytes)
          → s ++ left (read size f).1 ≡ left f
          → (s ≡ [] → left f ≡ [])
          → (length (left (read size f).1) < fuel
              → (l : List Message) × (read_messages read fuel size (read size f).1 ≡ some l)
                × (received (l ++ last_message ∷ []) ≡ some (left (read size f).1)))
          → (l : List Message) × (elim s [
            | [] ↦ some []
            | b ∷ t ↦ with_chunk (b ∷ t) (read_messages read fuel size (read size f).1)
          ]
              ≡ some l)
            × (received (l ++ last_message ∷ []) ≡ some (left f))
      by_chunk [] e last ih = ([], refl, ap some (sym (last refl)))
      by_chunk (b ∷ t) e last ih =
          let got = ih (omega (arith, h, ap length e, length-append t (left (read size f).1))) in
          (response_body (b ∷ t) true ∷ got.0, rw got.1 refl, rw got.2 (ap some e))

  -- The answer with an object ends, and delivers the object, for any chunk size that is not 0: it takes
  -- fewer reads than the object has bytes, and one more.
  pub stream_object-delivers :
      (fuel size : ℕ) (f : F)
      → 0 < size
      → length (left f) < fuel
      → (l : List Message) × (stream_object read fuel size f ≡ some l)
        × (received l ≡ some (left f))
  unfolding stream_object
  stream_object-delivers fuel size f p h =
      let got = read_messages-delivers fuel size f p h in
      (response_start ∷ got.0 ++ last_message ∷ [], rw got.1 refl, got.2)
