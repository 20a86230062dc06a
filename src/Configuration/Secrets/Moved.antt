-- ===== src/Configuration/Secrets/Moved.antt =====
-- What the migration of a secret leaves in its JSON object, and of the files.
use system_pilot.Base.{
  ◌≡◌, ◌≢◌, refl, subst, false, [], ◌∷◌, Option, none, some, Text, text_beq, text_beq_iff, arith,
}
use system_pilot.Configuration.Secrets.{
  fields_of, move_secret, move_value, migrate_secret, migrate_inner, migrate_within,
  reference_value,
}
use system_pilot.Credentials.Storing.{store_owner_secret-Keeps}
use system_pilot.Credentials.{CredentialRef, store_owner_secret, temporary_secret}
use system_pilot.Disk.Atomic.{Keeps, >>=-Keeps}
use system_pilot.Disk.{Files, WriteCalls, done, join, >>=-ok}
use system_pilot.Error.{AppError, ok, err-ok, ok-inj}
use system_pilot.Json
use system_pilot.Json.{
  Value, Fields, object, get, remove, get-insert, get-remove, as_str, as_object,
}

-- The old key is gone, and every key but it and the reference's is as before.
pub record Moved (old_key reference_key : Text) (before after : Fields) : Type 0 where
  pub gone : get old_key after ≡ none
  pub same :
      (j : Text)
      → text_beq old_key j ≡ false
      → text_beq reference_key j ≡ false
      → get j after ≡ get j before

-- Within a field's object the old key is gone, and every other field is as before.
pub record MovedWithin (key old_key : Text) (before after : Fields) : Type 0 where
  pub gone : (inner : Fields) → get key after ≡ some (object inner) → get old_key inner ≡ none
  pub same : (j : Text) → text_beq key j ≡ false → get j after ≡ get j before

module _ (pid reference_key directory filename : Text) (calls : WriteCalls) (old_key : Text)
    (apart : text_beq reference_key old_key ≡ false) where
  inserted-Moved :
      (v : Value) (o : Fields)
      → Moved old_key reference_key o (Json.insert reference_key v (remove old_key o))
  inserted-Moved v o = record {
    gone = ground (
      arith,
      get-insert reference_key old_key v (remove old_key o),
      get-remove old_key old_key o,
      text_beq_iff old_key old_key,
    );
    same = λ j h k.
        ground (arith, get-insert reference_key j v (remove old_key o), get-remove old_key j o);
  }

  move_secret-Moved :
      (t : Option Text) (o o' : Fields) (fs : Files)
      → (move_secret pid reference_key directory filename calls t (remove old_key o) fs).1 ≡ ok o'
      → Moved old_key reference_key o o'
  unfolding move_secret
  move_secret-Moved none o o' fs h = absurd (err-ok AppError.validation o' h)
  move_secret-Moved (some []) o o' fs h =
      let v = reference_value CredentialRef.none in
      subst (Moved old_key reference_key o)
        (ok-inj (Json.insert reference_key v (remove old_key o)) o' h) (inserted-Moved v o)
  move_secret-Moved (some (c ∷ t)) o o' fs h =
      let store = store_owner_secret pid directory filename (c ∷ t) calls in
      let next = λ (r : CredentialRef).
        done (Json.insert reference_key (reference_value r) (remove old_key o)) in
      let (r, passed, after, same) = >>=-ok store next fs o' h in
      let v = reference_value r in
      subst (Moved old_key reference_key o)
        (ok-inj (Json.insert reference_key v (remove old_key o)) o' after) (inserted-Moved v o)

  move_value-Moved :
      (v : Option Value) (o o' : Fields) (fs : Files)
      → get old_key o ≡ v
      → (move_value pid reference_key directory filename calls old_key v o fs).1 ≡ ok o'
      → Moved old_key reference_key o o'
  unfolding move_value
  move_value-Moved none o o' fs found h =
      subst (Moved old_key reference_key o) (ok-inj o o' h)
        (record { gone = found; same = λ j p q. refl })
  move_value-Moved (some v) o o' fs found h = move_secret-Moved (as_str v) o o' fs h

  pub migrate_secret-Moved :
      (o o' : Fields) (fs : Files)
      → (migrate_secret pid reference_key directory filename calls old_key o fs).1 ≡ ok o'
      → Moved old_key reference_key o o'
  unfolding migrate_secret
  migrate_secret-Moved o o' fs h = move_value-Moved (get old_key o) o o' fs refl h

  migrate_inner-MovedWithin :
      (key : Text) (inner : Option Fields) (o o' : Fields) (fs : Files)
      → fields_of (get key o) ≡ inner
      → (migrate_inner pid reference_key directory filename calls key old_key inner o fs).1 ≡ ok o'
      → MovedWithin key old_key o o'
  unfolding migrate_inner
  migrate_inner-MovedWithin key none o o' fs found h =
      subst (MovedWithin key old_key o) (ok-inj o o' h)
        (record { gone = λ inner p. ground arith; same = λ j p. refl })
  migrate_inner-MovedWithin key (some inner) o o' fs found h =
      let step = migrate_secret pid reference_key directory filename calls old_key inner in
      let next = λ (m : Fields). done (Json.insert key (object m) o) in
      let (m, passed, after, same) = >>=-ok step next fs o' h in
      let moved = migrate_secret-Moved inner m fs passed in
      subst (MovedWithin key old_key o) (ok-inj (Json.insert key (object m) o) o' after) (record {
        gone = λ i p.
            ground (arith, get-insert key key (object m) o, text_beq_iff key key, moved.gone);
        same = λ j p. ground (arith, get-insert key j (object m) o);
      })

  pub migrate_within-MovedWithin :
      (key : Text) (o o' : Fields) (fs : Files)
      → (migrate_within pid reference_key directory filename calls key old_key o fs).1 ≡ ok o'
      → MovedWithin key old_key o o'
  unfolding migrate_within
  migrate_within-MovedWithin key o o' fs h =
      migrate_inner-MovedWithin key (fields_of (get key o)) o o' fs refl h

-- Only the secret's file and its temporary file change.
module _ (pid reference_key directory filename : Text) (calls : WriteCalls) (p : Text)
    (t : temporary_secret pid directory filename ≢ p) (d : join directory filename ≢ p) where
  move_secret-Keeps :
      (v : Option Text) (o : Fields)
      → Keeps p (move_secret pid reference_key directory filename calls v o)
  unfolding move_secret
  move_secret-Keeps none o = λ fs. refl
  move_secret-Keeps (some []) o = λ fs. refl
  move_secret-Keeps (some (c ∷ v)) o =
      >>=-Keeps p (store_owner_secret pid directory filename (c ∷ v) calls)
        (λ r. done (Json.insert reference_key (reference_value r) o))
        (store_owner_secret-Keeps pid directory filename (c ∷ v) calls p t d) (λ r fs. refl)

  move_value-Keeps :
      (old_key : Text) (v : Option Value) (o : Fields)
      → Keeps p (move_value pid reference_key directory filename calls old_key v o)
  unfolding move_value
  move_value-Keeps old_key none o = λ fs. refl
  move_value-Keeps old_key (some v) o = move_secret-Keeps (as_str v) (remove old_key o)

  pub migrate_secret-Keeps :
      (old_key : Text) (o : Fields)
      → Keeps p (migrate_secret pid reference_key directory filename calls old_key o)
  unfolding migrate_secret
  migrate_secret-Keeps old_key o = move_value-Keeps old_key (get old_key o) o

  migrate_inner-Keeps :
      (key old_key : Text) (inner : Option Fields) (o : Fields)
      → Keeps p (migrate_inner pid reference_key directory filename calls key old_key inner o)
  unfolding migrate_inner
  migrate_inner-Keeps key old_key none o = λ fs. refl
  migrate_inner-Keeps key old_key (some inner) o =
      >>=-Keeps p (migrate_secret pid reference_key directory filename calls old_key inner)
        (λ m. done (Json.insert key (object m) o)) (migrate_secret-Keeps old_key inner)
        (λ m fs. refl)

  pub migrate_within-Keeps :
      (key old_key : Text) (o : Fields)
      → Keeps p (migrate_within pid reference_key directory filename calls key old_key o)
  unfolding migrate_within
  migrate_within-Keeps key old_key o = migrate_inner-Keeps key old_key (fields_of (get key o)) o
