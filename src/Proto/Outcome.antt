-- ===== src/Proto/Outcome.antt =====
-- How a parsing loop ends: with a value, with an error, or not within the fuel that it was given.

pub data Outcome {ℓ} (A : Type ℓ) : Type ℓ where
  done : A → Outcome A
  failed : Outcome A
  unfinished : Outcome A

infixl 5 ◌>>=◌
abbrev pub ◌>>=◌ {ℓ κ} : {A : Type ℓ} {B : Type κ} → Outcome A → (A → Outcome B) → Outcome B
done a >>= f = f a
failed >>= f = failed
unfinished >>= f = unfinished

-- The loop came to an end.
pub data Ends {ℓ} {A : Type ℓ} : Outcome A → Type ℓ where
  by_value : (a : A) → Ends (done a)
  by_error : Ends failed

pub >>=-Ends {ℓ κ} :
    {A : Type ℓ} {B : Type κ} (m : Outcome A) (f : A → Outcome B)
    → Ends m
    → ((a : A) → Ends (f a))
    → Ends (m >>= f)
>>=-Ends (done a) f h k = k a
>>=-Ends failed f h k = Ends.by_error
>>=-Ends unfinished f h k = elim h [ ]
