-- ===== src/Matchmaker/Acceptance.antt =====
-- What parseCTRSearch of ctr_async.go accepts.
use nextendo_demonware.Common.{
  [], ℕ, ◌≤◌, ◌≡◌, ◌≢◌, refl, sym, ap, ◌∙◌, Bool, true, false, not, ◌&&◌, List, ◌∷◌, Option, none,
  some, ltb, ◌==◌, length, arith, All,
}
use nextendo_demonware.Common.Int.{ℤ, pos, negsuc, ltb_ℤ, pos_part}
use nextendo_demonware.Common.Select.{contains}
use nextendo_demonware.Matchmaker.Types.{Listen, Search}
use nextendo_demonware.Matchmaker.Parse.{
  SearchDoc, Refusal, invalid_search, bad_member, no_leader, invalid_address, accepted, ◌>>◌, check,
  is_plausible, distinct_members, lengths_fit, parse_ctr_search,
}
use nextendo_demonware.Matchmaker.Invariant.{SeatsCount}

four_checks :
    (a b c d : Bool) (w x y z : Refusal) (t s : Search)
    → (check a w >> (check b x >> (check c y >> (check d z >> accepted t)))) ≡ accepted s
    → (a ≡ true) × (b ≡ true) × (c ≡ true) × (d ≡ true) × (t ≡ s)
four_checks true true true true w x y z t s e = (refl, refl, refl, refl, cc)
four_checks true true true false w x y z t s e = cc
four_checks true true false d w x y z t s e = cc
four_checks true false c d w x y z t s e = cc
four_checks false b c d w x y z t s e = cc

-- What was checked of a document whose search `s` is.
pub record Checked (decode : List ℕ → Option (List ℕ)) (pid : ℕ) (d : SearchDoc) (l : Listen)
    (s : Search) : Type 0 where
  pub plausible : is_plausible pid d ≡ true
  pub distinct : distinct_members [] d.members ≡ true
  pub led : contains pid d.members ≡ true
  pub roomy : ltb (pos_part d.slots_max) (length d.members) ≡ false
  pub fitting : lengths_fit decode l ≡ true
  pub same_pid : s.pid ≡ pid
  pub same_members : s.members ≡ d.members
  pub least : s.slots_min ≡ pos_part d.slots_min
  pub most : s.slots_max ≡ pos_part d.slots_max
  pub counted : s.seats ≡ length d.members

-- A search is accepted only if its document and its player info are there and pass every check, and
-- it then has the document's members, limits and number of seats, and the account that asked.
parse_ctr_search-Checked :
    (decode : List ℕ → Option (List ℕ)) (conn pid id : ℕ) (raw : Option SearchDoc)
    (info : Option Listen) (s : Search)
    → parse_ctr_search decode conn pid id raw info ≡ accepted s
    → (d : SearchDoc) × (l : Listen) × (raw ≡ some d) × (info ≡ some l) × Checked decode pid d l s
unfolding parse_ctr_search
parse_ctr_search-Checked decode conn pid id none info s e = cc
parse_ctr_search-Checked decode conn pid id (some d) none s e = ground arith
parse_ctr_search-Checked decode conn pid id (some d) (some l) s e =
    let (a, b, c, f, same) =
      four_checks (is_plausible pid d) (distinct_members [] d.members)
        (contains pid d.members && not (ltb (pos_part d.slots_max) (length d.members)))
        (lengths_fit decode l) invalid_search bad_member no_leader invalid_address _ s e in
    (
      d,
      l,
      refl,
      refl,
      record {
        plausible = a;
        distinct = b;
        led = ground arith;
        roomy = ground arith;
        fitting = f;
        same_pid = ap (λ (t : Search). t.pid) (sym same);
        same_members = ap (λ (t : Search). t.members) (sym same);
        least = ap (λ (t : Search). t.slots_min) (sym same);
        most = ap (λ (t : Search). t.slots_max) (sym same);
        counted = ap (λ (t : Search). t.seats) (sym same);
      },
    )

-- No two are equal.
abbrev pub Distinct : List ℕ → Type 0
Distinct [] = Unit
Distinct (x ∷ xs) = All (λ y. y ≢ x) xs × Distinct xs

-- A search that may be queued.
pub record Acceptable (pid : ℕ) (s : Search) : Type 0 where
  pub from_account : s.pid ≡ pid
  pub known : pid ≢ 0
  pub led : contains s.pid s.members ≡ true
  pub none_zero : All (λ p. p ≢ 0) s.members
  pub different : Distinct s.members
  pub at_least : 1 ≤ s.slots_min
  pub ordered : s.slots_min ≤ s.slots_max
  pub at_most : s.slots_max ≤ 8
  pub counted : s.seats ≡ length s.members
  pub fits : (1 ≤ s.seats) × (s.seats ≤ s.slots_max)

unseen : (seen : List ℕ) (pid : ℕ) → contains pid seen ≡ false → All (λ y. y ≢ pid) seen
unseen [] pid e = tt
unseen (x ∷ xs) pid e = (ground arith, unseen xs pid (ground arith))

All-unseen :
    (x : ℕ) (seen pids : List ℕ)
    → All (λ p. All (λ y. y ≢ p) (x ∷ seen)) pids
    → All (λ p. p ≢ x) pids
All-unseen x seen [] h = tt
All-unseen x seen (p ∷ ps) (h, hs) = ((λ e. h.0 (sym e)), All-unseen x seen ps hs)

less_seen :
    (x : ℕ) (seen pids : List ℕ)
    → All (λ p. All (λ y. y ≢ p) (x ∷ seen)) pids
    → All (λ p. All (λ y. y ≢ p) seen) pids
less_seen x seen [] h = tt
less_seen x seen (p ∷ ps) (h, hs) = (h.1, less_seen x seen ps hs)

distinct_members-Distinct :
    (seen pids : List ℕ)
    → distinct_members seen pids ≡ true
    → All (λ p. p ≢ 0) pids × All (λ p. All (λ y. y ≢ p) seen) pids × Distinct pids
unfolding distinct_members
distinct_members-Distinct seen [] e = (tt, tt, tt)
distinct_members-Distinct seen (p ∷ ps) e =
    let (nz, un, di) = distinct_members-Distinct (p ∷ seen) ps (ground arith) in
    (
      (ground arith, nz),
      (unseen seen p (ground arith), less_seen p seen ps un),
      (All-unseen p seen ps un, di),
    )

numeric_bounds :
    (pid n size : ℕ) (a b : ℤ)
    → (not (pid == 0)
        && not (ltb n 1)
        && not (ltb 8 n)
        && not (ltb_ℤ a (pos 1))
        && not (ltb_ℤ b a)
        && not (ltb_ℤ (pos 8) b)
        && not (size == 0))
      ≡ true
    → (pid ≢ 0) × (1 ≤ n) × (1 ≤ pos_part a) × (pos_part a ≤ pos_part b) × (pos_part b ≤ 8)
numeric_bounds pid n size (pos a) (pos b) e = ground arith
numeric_bounds pid n size (pos a) (negsuc b) e = ground arith
numeric_bounds pid n size (negsuc a) b e = ground arith

plausible-bounds :
    (pid : ℕ) (d : SearchDoc)
    → is_plausible pid d ≡ true
    → (pid ≢ 0)
      × (1 ≤ length d.members)
      × (1 ≤ pos_part d.slots_min)
      × (pos_part d.slots_min ≤ pos_part d.slots_max)
      × (pos_part d.slots_max ≤ 8)
unfolding is_plausible
plausible-bounds pid d e =
    numeric_bounds pid (length d.members) d.filter_size d.slots_min d.slots_max e

-- A search that is accepted comes from a known account that is among its members; the members are
-- different from 0 and from each other; and with limits from 1 to 8 it takes one seat for each of
-- them, within its own upper limit.
pub parse_ctr_search-Acceptable :
    (decode : List ℕ → Option (List ℕ)) (conn pid id : ℕ) (raw : Option SearchDoc)
    (info : Option Listen) (s : Search)
    → parse_ctr_search decode conn pid id raw info ≡ accepted s
    → Acceptable pid s
parse_ctr_search-Acceptable decode conn pid id raw info s e =
    let (d, l, _, _, c) = parse_ctr_search-Checked decode conn pid id raw info s e in
    let (known, some_member, low, between, high) = plausible-bounds pid d c.plausible in
    let (nz, _, di) = distinct_members-Distinct [] d.members c.distinct in
    let room : length d.members ≤ pos_part d.slots_max = ground (arith, c.roomy) in
    record {
      from_account = c.same_pid;
      known = known;
      led = rw (c.same_pid, c.same_members) c.led;
      none_zero = rw c.same_members nz;
      different = rw c.same_members di;
      at_least = rw c.least low;
      ordered = rw (c.least, c.most) between;
      at_most = rw c.most high;
      counted = c.counted ∙ ap length (sym c.same_members);
      fits = (omega (arith, c.counted), omega (arith, c.counted, c.most));
    }

pub parse_ctr_search-SeatsCount :
    (decode : List ℕ → Option (List ℕ)) (conn pid id : ℕ) (raw : Option SearchDoc)
    (info : Option Listen) (s : Search)
    → parse_ctr_search decode conn pid id raw info ≡ accepted s
    → SeatsCount s
parse_ctr_search-SeatsCount decode conn pid id raw info s e =
    let (d, l, _, _, c) = parse_ctr_search-Checked decode conn pid id raw info s e in
    cc (c.counted, c.same_members)
