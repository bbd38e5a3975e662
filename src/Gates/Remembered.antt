-- ===== src/Gates/Remembered.antt =====
-- What the cache of lookups keeps, and for how long (accountlookup.go).
use nextendo_demonware.Common.{
  [], ℕ, ◌+◌, ◌-◌, ◌≤◌, ◌<◌, ◌≢◌, ◌≡◌, refl, ap, ◌∙◌, true, false, List, ◌∷◌, Option, none, some,
  length, ltb, leb, ◌==◌, if◌then◌else◌, arith, All, sym, subst, Bool-cases, inl, inr,
}
use nextendo_demonware.Presence.Table.{lookup, erase, insert}
use nextendo_demonware.Presence.Maps.{lookup-insert}
use nextendo_demonware.Gates.Lookup.{
  Resolved, Cache, hit_ttl, miss_ttl, max_keep, answer_of, is_fresh, answered, must_ask, from_entry,
  ask_cache, or_ask, Known, complete, pid_for_console_id, Fetched, unreachable, missing, found,
  keep_answer, remember,
}

length-erase : (k : ℕ) (m : List (ℕ × Resolved)) → length (erase k m) ≤ length m
unfolding erase
length-erase k [] = omega arith
length-erase k ((j, v) ∷ m) = ground (arith, length-erase k m)

-- Whatever the account server answers, a cache of 4096 entries at most has as many at most afterwards.
length-remember :
    (now id : ℕ) (fetched : Fetched) (c : Cache)
    → length c.entries ≤ max_keep
    → length (remember now id fetched c).0.entries ≤ max_keep
unfolding remember insert
length-remember now id unreachable c h = h
length-remember now id missing c h = ground (arith, length-erase id c.entries, length-erase id [])
length-remember now id (found pid) c h =
    ground (arith, length-erase id c.entries, length-erase id [])

lookup_self : (id : ℕ) (r : Resolved) (m : List (ℕ × Resolved)) → lookup id (insert id r m) ≡ some r
lookup_self id r m =
    let same : (id == id) ≡ true = ground arith in lookup-insert id id r m ∙ rw same refl

stays_stale :
    (now now' : ℕ) (r : Resolved) → now ≤ now' → is_fresh now r ≡ false → is_fresh now' r ≡ false
unfolding is_fresh
stays_stale now now' r h e = ground arith

-- With the server down, an id that had to be asked for is answered with none.
while_down :
    (now now' : ℕ) (c : Cache) (o : Option Resolved)
    → now ≤ now'
    → now' < now + miss_ttl
    → from_entry now c o ≡ must_ask
    → from_entry now' (record c { down_until = now + miss_ttl }) o ≡ answered none
while_down now now' c none h k e =
    let down : ltb now' (now + miss_ttl) ≡ true = ground arith in rw down refl
while_down now now' c (some r) h k e =
    let down : ltb now' (now + miss_ttl) ≡ true = ground arith in
    elim (Bool-cases (is_fresh now r)) [
      | inl f ↦ absurd (fresh_answers now c r f e)
      | inr f ↦ rw (stays_stale now now' r h f, down) refl
    ]
  where
    fresh_answers :
        (now : ℕ) (c : Cache) (r : Resolved)
        → is_fresh now r ≡ true
        → from_entry now c (some r) ≡ must_ask
        → ⊥
    fresh_answers now c r f e = ground (arith, f)

-- Lookups that are made one after the other: when, of which id, and with which answer of the server.
abbrev pub Call : Type 0
Call = ℕ × ℕ × Fetched

abbrev pub calls : List Call → Cache → Cache
calls [] c = c
calls ((t, id, fetched) ∷ more) c = calls more (pid_for_console_id t id fetched c).0

-- All of them in the 30 seconds from `now` on.
abbrev Within : ℕ → List Call → Type 0
Within now es = All (λ e. (now ≤ e.0) × (e.0 < now + miss_ttl)) es

-- With the server down since `now`, nothing changes.
complete-down :
    (t id : ℕ) (fetched : Fetched) (c : Cache) (o : Option Resolved)
    → ltb t c.down_until ≡ true
    → (complete t id fetched c (from_entry t c o)).0 ≡ c
complete-down t id fetched c none d = rw d refl
complete-down t id fetched c (some r) d = elim (Bool-cases (is_fresh t r)) [
  | inl f ↦ rw f refl
  | inr f ↦ rw (f, d) refl
]

calls-down :
    (now : ℕ) (es : List Call) (c : Cache)
    → c.down_until ≡ now + miss_ttl
    → Within now es
    → calls es c ≡ c
unfolding pid_for_console_id ask_cache
calls-down now [] c d h = refl
calls-down now ((t, id, fetched) ∷ es) c d ((_, h), hs) =
    let down : ltb t c.down_until ≡ true = ground (arith, d) in
    ap (calls es) (complete-down t id fetched c (lookup id c.entries) down)
    ∙ calls-down now es c d hs

-- An answer of `now` is kept, in a cache of n entries at most.
record Keeps (now id : ℕ) (r : Resolved) (n : ℕ) (c : Cache) : Type 0 where
  entry : lookup id c.entries ≡ some r
  size : length c.entries ≤ n

fresh_answer :
    (now t id n : ℕ) (r : Resolved) (c : Cache)
    → r.at ≡ now
    → t < now + miss_ttl
    → Keeps now id r n c
    → ask_cache t id c ≡ answered (answer_of r)
unfolding ask_cache is_fresh
fresh_answer now t id n r c e h k =
    let fresh : ltb (t - r.at) (if r.ok then hit_ttl else miss_ttl) ≡ true = ground arith in
    ap (from_entry t c) k.entry ∙ ap (λ b. if b then answered (answer_of r) else or_ask t c) fresh

insert-Keeps :
    (now id j n : ℕ) (r s : Resolved) (c : Cache)
    → n < max_keep
    → j ≢ id
    → Keeps now id r n c
    → Keeps now id r (n + 1) (keep_answer now j c (some s)).0
unfolding insert
insert-Keeps now id j n r s c h d k =
    let small : leb max_keep (length c.entries) ≡ false = ground (arith, k.size) in
    let other : (j == id) ≡ false = ground arith in
    let same : (keep_answer now j c (some s)).0 ≡ record c { entries = insert j s c.entries } =
      ap (λ b. record c { entries = insert j s (if b then [] else c.entries) }) small in
    subst (Keeps now id r (n + 1)) (sym same) (record {
      entry =
          lookup-insert id j s c.entries
          ∙ ap (λ b. if b then some s else lookup id c.entries) other
          ∙ k.entry;
      size = omega (arith, length-erase j c.entries, k.size);
    })

-- One other lookup.
complete-Keeps :
    (now t id j n : ℕ) (fetched : Fetched) (r : Resolved) (c : Cache) (a : Known)
    → n < max_keep
    → (a ≡ must_ask → j ≢ id)
    → Keeps now id r n c
    → Keeps now id r (n + 1) (complete t j fetched c a).0
unfolding remember
complete-Keeps now t id j n fetched r c (answered x) h d k = record {
  entry = k.entry;
  size = omega (arith, k.size);
}
complete-Keeps now t id j n unreachable r c must_ask h d k = record {
  entry = k.entry;
  size = omega (arith, k.size);
}
complete-Keeps now t id j n missing r c must_ask h d k =
    let k' = insert-Keeps now id j n r (record { pid = 0; ok = false; at = t }) c h (d refl) k in
    record { entry = k'.entry; size = k'.size }
complete-Keeps now t id j n (found pid) r c must_ask h d k =
    let k' = insert-Keeps now id j n r (record { pid = pid; ok = true; at = t }) c h (d refl) k in
    record { entry = k'.entry; size = k'.size }

must_ask-answered : (k : Known) (a : Option ℕ) → k ≡ must_ask → k ≡ answered a → ⊥
must_ask-answered must_ask a e f = cc
must_ask-answered (answered b) a e f = cc

calls-Keeps :
    (now id n : ℕ) (r : Resolved) (es : List Call) (c : Cache)
    → r.at ≡ now
    → Within now es
    → n + length es ≤ max_keep
    → Keeps now id r n c
    → Keeps now id r (n + length es) (calls es c)
unfolding pid_for_console_id
calls-Keeps now id n r [] c e w h k = record { entry = k.entry; size = omega (arith, k.size) }
calls-Keeps now id n r ((t, j, fetched) ∷ es) c e ((_, before), ws) h k =
    let known : Known = ask_cache t j c in
    let other : known ≡ must_ask → j ≢ id = λ asks same.
      must_ask-answered known (answer_of r) asks
        (ap (λ i. ask_cache t i c) same ∙ fresh_answer now t id n r c e before k) in
    let k' = complete-Keeps now t id j n fetched r c known (omega arith) other k in
    let last =
      calls-Keeps now id (n + 1) r es (complete t j fetched c known).0 e ws (omega arith) k' in
    record { entry = last.entry; size = omega (arith, last.size) }

-- An answer that was just kept.
kept-Keeps :
    (now id : ℕ) (c : Cache) (r : Resolved)
    → Keeps now id r
        (length (keep_answer now id c (some r)).0.entries)
        (keep_answer now id c (some r)).0
kept-Keeps now id c r = record {
  entry = lookup_self id r (if leb max_keep (length c.entries) then [] else c.entries);
  size = omega arith;
}

kept_answer :
    (now now' id : ℕ) (c : Cache) (r : Resolved) (es : List Call)
    → r.at ≡ now
    → now' < now + miss_ttl
    → Within now es
    → length (keep_answer now id c (some r)).0.entries + length es ≤ max_keep
    → ask_cache now' id (calls es (keep_answer now id c (some r)).0) ≡ answered (answer_of r)
kept_answer now now' id c r es e h w k =
    let n : ℕ = length (keep_answer now id c (some r)).0.entries in
    fresh_answer now now' id (n + length es) r (calls es (keep_answer now id c (some r)).0) e h
      (calls-Keeps now id n r es (keep_answer now id c (some r)).0 e w k (kept-Keeps now id c r))

-- An id for which the account server had to be asked is answered the same, without another call, for
-- the next 30 seconds, whether the server gave an account, none, or no answer at all, and whatever
-- other lookups are made in that time, one after the other: if the entries that the cache has then and
-- the number of these lookups do not exceed the 4096 at which the cache is emptied.
pub ask_cache-calls :
    (now now' id : ℕ) (fetched : Fetched) (c : Cache) (es : List Call)
    → ask_cache now id c ≡ must_ask
    → now ≤ now'
    → now' < now + miss_ttl
    → Within now es
    → length (remember now id fetched c).0.entries + length es ≤ max_keep
    → ask_cache now' id (calls es (remember now id fetched c).0)
      ≡ answered (remember now id fetched c).1
unfolding remember
ask_cache-calls now now' id unreachable c es e h k w small =
    let down : Cache = record c { down_until = now + miss_ttl } in
    ap (ask_cache now' id) (calls-down now es down refl w)
    ∙ (unfold ask_cache in while_down now now' c (lookup id c.entries) h k e)
ask_cache-calls now now' id missing c es e h k w small =
    kept_answer now now' id c (record { pid = 0; ok = false; at = now }) es refl k w small
ask_cache-calls now now' id (found pid) c es e h k w small =
    kept_answer now now' id c (record { pid = pid; ok = true; at = now }) es refl k w small
