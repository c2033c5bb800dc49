-- ===== src/Storage/Upload/Parts.antt =====
-- What the storage is given of a file.
use maas_site_manager.Common.{
  ℕ, suc, ◌+◌, ◌≤◌, String, List, [], ◌∷◌, ◌++◌, map, ltb, length, length-append, ◌≡◌, refl, ap,
  ◌∙◌, sym, arith, Bool-cases, inl, inr, All,
}
use mathlib.Core.List.{append-nil, append_assoc, map-append}
use maas_site_manager.Common.Rows.{All-append}
use maas_site_manager.Storage.Chunks.{Bytes, join, join-append}
use maas_site_manager.Storage.Upload.{
  min_part_size, UploadTarget, new_target, upload_current_chunk, on_data_received,
}

abbrev pub bodies : List (ℕ × Bytes) → List Bytes
bodies l = map (λ p. p.1) l

-- The parts are numbered from `n` on.
abbrev pub Numbered : ℕ → List (ℕ × Bytes) → Type 0
Numbered n [] = Unit
Numbered n (p ∷ l) = (p.0 ≡ n) × Numbered (suc n) l

abbrev pub IsLarge : ℕ × Bytes → Type 0
IsLarge p = min_part_size ≤ length p.1

-- Every part but the last is large enough for the storage.
abbrev pub LargeButLast : List (ℕ × Bytes) → Type 0
LargeButLast [] = Unit
LargeButLast (p ∷ []) = Unit
LargeButLast (p ∷ q ∷ l) = IsLarge p × LargeButLast (q ∷ l)

Numbered-append :
    (n k : ℕ) (b : Bytes) (l : List (ℕ × Bytes))
    → Numbered n l
    → k ≡ n + length l
    → Numbered n (l ++ (k, b) ∷ [])
Numbered-append n k b [] h e = (omega arith, tt)
Numbered-append n k b (p ∷ l) h e = (h.0, Numbered-append (suc n) k b l h.1 (omega arith))

pub LargeButLast-append :
    (p : ℕ × Bytes) (l : List (ℕ × Bytes)) → All IsLarge l → LargeButLast (l ++ p ∷ [])
LargeButLast-append p [] h = tt
LargeButLast-append p (q ∷ []) h = (h.0, tt)
LargeButLast-append p (q ∷ r ∷ l) h = (h.0, LargeButLast-append p (r ∷ l) h.1)

pub LargeButLast-All : (l : List (ℕ × Bytes)) → All IsLarge l → LargeButLast l
LargeButLast-All [] h = tt
LargeButLast-All (p ∷ []) h = tt
LargeButLast-All (p ∷ q ∷ l) h = (h.0, LargeButLast-All (q ∷ l) h.1)

module _ (etag : ℕ → Bytes → String) where
  abbrev pub tagged : List (ℕ × Bytes) → List (ℕ × String)
  tagged l = map (λ p. (p.0, etag p.0 p.1)) l

  -- The parts given so far are those of `data_so_far`, but for what waits.
  pub record Inv (so_far : Bytes) (t : UploadTarget) : Type 0 where
    pub whole : join (bodies t.sent) ++ t.current_chunk ≡ so_far
    pub digest : t.hashed ≡ join (bodies t.sent)
    pub counted : t.bytes_sent ≡ length t.hashed
    pub next : t.part_no ≡ 1 + length t.sent
    pub numbered : Numbered 1 t.sent
    pub listed : t.parts ≡ tagged t.sent

  bodies-append :
      (l : List (ℕ × Bytes)) (k : ℕ) (b : Bytes)
      → join (bodies (l ++ (k, b) ∷ [])) ≡ join (bodies l) ++ b
  bodies-append l k b =
      ap join (map-append (λ p. p.1) l ((k, b) ∷ []))
      ∙ join-append (bodies l) (b ∷ [])
      ∙ ap (λ s. join (bodies l) ++ s) (append-nil b)

  pub new-Inv : Inv [] new_target
  new-Inv = record {
    whole = refl;
    digest = refl;
    counted = refl;
    next = omega arith;
    numbered = tt;
    listed = refl;
  }

  pub upload-Inv : (s : Bytes) (t : UploadTarget) → Inv s t → Inv s (upload_current_chunk etag t)
  upload-Inv s t inv =
      let joined = bodies-append t.sent t.part_no t.current_chunk in
      record {
        whole =
            append-nil (join (bodies (t.sent ++ (t.part_no, t.current_chunk) ∷ [])))
            ∙ joined
            ∙ inv.whole;
        digest = ap (λ h. h ++ t.current_chunk) inv.digest ∙ sym joined;
        counted = omega (arith, inv.counted, length-append t.hashed t.current_chunk);
        next = omega (arith, inv.next, length-append t.sent ((t.part_no, t.current_chunk) ∷ []));
        numbered = Numbered-append 1 t.part_no t.current_chunk t.sent inv.numbered inv.next;
        listed =
            ap (λ l. l ++ (t.part_no, etag t.part_no t.current_chunk) ∷ []) inv.listed
            ∙ sym
                (map-append (λ p. (p.0, etag p.0 p.1)) t.sent ((t.part_no, t.current_chunk) ∷ []));
      }

  -- The target with a chunk that waits.
  waiting-Inv :
      (s chunk : Bytes) (t : UploadTarget)
      → Inv s t
      → Inv (s ++ chunk) (record t { current_chunk = t.current_chunk ++ chunk })
  waiting-Inv s chunk t inv = record {
    whole =
        sym (append_assoc (join (bodies t.sent)) t.current_chunk chunk)
        ∙ ap (λ q. q ++ chunk) inv.whole;
    digest = inv.digest;
    counted = inv.counted;
    next = inv.next;
    numbered = inv.numbered;
    listed = inv.listed;
  }

  pub received-Inv :
      (s chunk : Bytes) (t : UploadTarget)
      → Inv s t
      → All IsLarge t.sent
      → Inv (s ++ chunk) (on_data_received etag chunk t)
        × All IsLarge (on_data_received etag chunk t).sent
  received-Inv s chunk t inv large =
      let u = record t { current_chunk = t.current_chunk ++ chunk } in
      elim (Bool-cases (ltb (length (t.current_chunk ++ chunk)) min_part_size)) [
        | inl small ↦ rw small (waiting-Inv s chunk t inv, large)
        | inr big ↦ rw big (
          upload-Inv (s ++ chunk) u (waiting-Inv s chunk t inv),
          All-append IsLarge t.sent ((t.part_no, t.current_chunk ++ chunk) ∷ []) large
              (ground (arith, big), tt),
        )
      ]
