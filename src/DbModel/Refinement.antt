-- ===== src/DbModel/Refinement.antt =====
-- The rows of a model against what they stand for: one value for each name of the model.
use maas_site_manager.Common.{
  ◌≡◌, refl, ap, sym, ◌∙◌, String, true, Option, none, some, List, [], ◌∷◌, if◌then◌else◌,
}
use maas_site_manager.DbModel.{mem, or_else, value_of, update_values, get, ensure}
use maas_site_manager.DbModel.Laws.{ensure_lem}
use maas_site_manager.DbModel.Updates.{written_by, given, update_values_lem, get_lem}

-- What happens to the rows: an update by a request, or a start of the server, which ensures them.
pub data Event (V : Type 0) : Type 0 where
  updated : List (String × Option V) → Event V
  started : Event V

module _ {V : Type 0} where
  -- The abstract model: a request writes the values that it gives, a start changes nothing.
  abbrev write : List (String × Option V) → (String → V) → String → V
  write values s k = or_else (given values k) (s k)

  abbrev pub replay : List (Event V) → (String → V) → String → V
  replay [] s = s
  replay (updated values ∷ events) s = replay events (write values s)
  replay (started ∷ events) s = replay events s

module _ {V : Type 0} (valid : List String) (default : String → V) where
  abbrev pub run : List (Event V) → List (String × V) → List (String × V)
  run [] t = t
  run (updated values ∷ events) t = run events (update_values valid values t)
  run (started ∷ events) t = run events (ensure valid default t)

  abbrev Stands : List (String × V) → (String → V) → Type 0
  Stands t s = (k : String) → mem valid k ≡ true → value_of t k ≡ some (s k)

  ensure-Stands :
      (t : List (String × V))
      → Stands (ensure valid default t) (λ k. or_else (value_of t k) (default k))
  ensure-Stands t k known = (ensure_lem valid default t k).1 ∙ rw known refl

  start-Stands :
      (t : List (String × V)) (s : String → V) → Stands t s → Stands (ensure valid default t) s
  start-Stands t s h k known =
      ensure-Stands t k known ∙ ap (λ o. some (or_else o (default k))) (h k known)

  write_value : (o : Option V) (v : V) → written_by o (some v) ≡ some (or_else o v)
  write_value none v = refl
  write_value (some w) v = refl

  update-Stands :
      (values : List (String × Option V)) (t : List (String × V)) (s : String → V)
      → Stands t s
      → Stands (update_values valid values t) (write values s)
  update-Stands values t s h k known =
      update_values_lem valid values t k
      ∙ ap (λ b. written_by (if b then given values k else none) (value_of t k)) known
      ∙ ap (written_by (given values k)) (h k known)
      ∙ write_value (given values k) (s k)

  run-Stands :
      (events : List (Event V)) (t : List (String × V)) (s : String → V)
      → Stands t s
      → Stands (run events t) (replay events s)
  run-Stands [] t s h = h
  run-Stands (updated values ∷ events) t s h =
      run-Stands events (update_values valid values t) (write values s) (update-Stands values t s h)
  run-Stands (started ∷ events) t s h =
      run-Stands events (ensure valid default t) s (start-Stands t s h)

  read :
      (t : List (String × V)) (s : String → V) (k : String)
      → Stands t s
      → mem valid k ≡ true
      → get valid default t k ≡ s k
  read t s k h known = get_lem valid default t k known ∙ ap (λ o. or_else o (default k)) (h k known)

  -- Once the rows have been ensured, whatever updates and starts follow, each field of the model is read as
  -- replaying them on one value for each name says.
  pub run-replay :
      (events : List (Event V)) (t : List (String × V)) (k : String)
      → mem valid k ≡ true
      → get valid default (run events (ensure valid default t)) k
        ≡ replay events (get valid default (ensure valid default t)) k
  run-replay events t k known =
      let e = ensure valid default t in
      let first : Stands e (get valid default e) = λ j named.
        ensure-Stands t j named
        ∙ ap some
            (sym (read e (λ i. or_else (value_of t i) (default i)) j (ensure-Stands t) named)) in
      read (run events e) (replay events (get valid default e)) k
        (run-Stands events e (get valid default e) first) known
