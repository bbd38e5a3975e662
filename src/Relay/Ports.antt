-- ===== src/Relay/Ports.antt =====
-- The relay's ports (ctr_relay.go).
use nextendo_demonware.Common.{
  ℕ, zero, suc, ◌-◌, ◌≤◌, ◌≡◌, refl, sym, subst, ◌≢◌, Bool, true, false, not, ◌||◌, List, [], ◌∷◌,
  ◌++◌, Option, none, some, ◌==◌, if◌then◌else◌, map, arith, All, All-append, Bool-cases,
  Option-cases, inl, inr,
}
use nextendo_demonware.Common.Select.{keep, any, find, All-keep}
use nextendo_demonware.Relay.Address.{Endpoint}
use nextendo_demonware.Relay.Table.{
  Pair, Table, is_pair, is_busy, turn, open_loop, add_pair, renew, pair_for, reap,
}

-- No two pairs have one port.
abbrev Apart : List Pair → Type 0
Apart [] = Unit
Apart (p ∷ ps) = All (λ (q : Pair). q.port ≢ p.port) ps × Apart ps

-- Each pair has a port of its own out of the range, and the next try is in the range too.
pub record PortsOk (t : Table) : Type 0 where
  pub apart : Apart t.pairs
  pub ranged : All (λ (p : Pair). (t.low ≤ p.port) × (p.port ≤ t.high)) t.pairs
  pub next_ranged : (t.low ≤ t.next) × (t.next ≤ t.high)

turn-PortsOk : (t : Table) → PortsOk t → PortsOk (turn t)
turn-PortsOk t ok = record {
  apart = ok.apart;
  ranged = ok.ranged;
  next_ranged = ground (arith, ok.next_ranged);
}

-- What the loop over the tries returns.
abbrev Opened : Table × Option ℕ → Type 0
Opened (t, none) = PortsOk t
Opened (t, some port) = PortsOk t × ((is_busy t port ≡ false) × (t.low ≤ port) × (port ≤ t.high))

if-Opened :
    (b : Bool) (x y : Table × Option ℕ)
    → (b ≡ true → Opened x)
    → (b ≡ false → Opened y)
    → Opened (if b then x else y)
if-Opened true x y h k = h refl
if-Opened false x y h k = k refl

open_loop-Opened :
    (listens : ℕ → Bool) (tries : ℕ) (t : Table) → PortsOk t → Opened (open_loop listens tries t)
unfolding open_loop
open_loop-Opened listens zero t ok = ok
open_loop-Opened listens (suc tries) t ok =
    if-Opened (is_busy t t.next || not (listens t.next)) _ _
      (λ e. open_loop-Opened listens tries (turn t) (turn-PortsOk t ok))
      (λ e. (turn-PortsOk t ok, (ground (arith, e), ok.next_ranged.0, ok.next_ranged.1)))

free-All :
    (port : ℕ) (ps : List Pair)
    → any (λ (p : Pair). p.port == port) ps ≡ false
    → All (λ (p : Pair). port ≢ p.port) ps
free-All port [] e = tt
free-All port (p ∷ ps) e = (ground arith, free-All port ps (ground arith))

Apart-append :
    (ps : List Pair) (q : Pair)
    → Apart ps
    → All (λ (p : Pair). q.port ≢ p.port) ps
    → Apart (ps ++ q ∷ [])
Apart-append [] q a h = (tt, tt)
Apart-append (p ∷ ps) q (a, rest) (h, hs) =
    (All-append (λ (x : Pair). x.port ≢ p.port) ps (q ∷ []) a (h, tt), Apart-append ps q rest hs)

add_pair-PortsOk :
    (host_pid joiner_pid : ℕ) (host : Endpoint) (now : ℕ) (x : Table × Option ℕ)
    → Opened x
    → PortsOk (add_pair host_pid joiner_pid host now x).0
add_pair-PortsOk host_pid joiner_pid host now (t, none) ok = ok
add_pair-PortsOk host_pid joiner_pid host now (t, some port) (ok, (free, low, high)) = record {
  apart = Apart-append t.pairs _ ok.apart (free-All port t.pairs free);
  ranged =
      All-append (λ (p : Pair). (t.low ≤ p.port) × (p.port ≤ t.high)) t.pairs _ ok.ranged
        ((low, high), tt);
  next_ranged = ok.next_ranged;
}

module _ (f : Pair → Pair) (same : (p : Pair) → (f p).port ≡ p.port) where
  All-renew :
      (P : ℕ → Type 0) (ps : List Pair)
      → All (λ (p : Pair). P p.port) ps
      → All (λ (p : Pair). P p.port) (map f ps)
  All-renew P [] h = tt
  All-renew P (p ∷ ps) (h, hs) = (subst P (sym (same p)) h, All-renew P ps hs)

  Apart-renew : (ps : List Pair) → Apart ps → Apart (map f ps)
  Apart-renew [] a = tt
  Apart-renew (p ∷ ps) (a, rest) = (
    All-renew (λ n. n ≢ (f p).port) ps
        (subst (λ m. All (λ (q : Pair). q.port ≢ m) ps) (sym (same p)) a),
    Apart-renew ps rest,
  )

  map-PortsOk : (t : Table) → PortsOk t → PortsOk (record t { pairs = map f t.pairs })
  map-PortsOk t ok = record {
    apart = Apart-renew t.pairs ok.apart;
    ranged = All-renew (λ n. (t.low ≤ n) × (n ≤ t.high)) t.pairs ok.ranged;
    next_ranged = ok.next_ranged;
  }

renew-port :
    (host_pid joiner_pid : ℕ) (host : Endpoint) (now : ℕ) (p : Pair)
    → (renew host_pid joiner_pid host now p).port ≡ p.port
renew-port host_pid joiner_pid host now p = ground arith

-- Where each pair has a port of its own out of the relay's range, it is still so after a pair was
-- looked up, and opened if need be, whichever sockets can be opened.
pair_for-PortsOk :
    (listens : ℕ → Bool) (host_pid joiner_pid now : ℕ) (host : Endpoint) (t : Table)
    → PortsOk t
    → PortsOk (pair_for listens host_pid joiner_pid host now t).0
unfolding pair_for
pair_for-PortsOk listens host_pid joiner_pid now host t ok =
    elim (Option-cases (find (is_pair host_pid joiner_pid) t.pairs)) [
      | inl e ↦
          rw (e, pair_for)
            (add_pair-PortsOk host_pid joiner_pid host now _
              (open_loop-Opened listens (suc (t.high - t.low)) t ok))
      | inr (p, e) ↦
          rw (e, pair_for)
            (map-PortsOk (renew host_pid joiner_pid host now)
              (renew-port host_pid joiner_pid host now) t ok)
    ]

keep-Apart : (p : Pair → Bool) (ps : List Pair) → Apart ps → Apart (keep p ps)
keep-Apart p [] a = tt
keep-Apart p (x ∷ ps) (a, rest) = elim (Bool-cases (p x)) [
  | inl e ↦ rw e (All-keep _ p ps a, keep-Apart p ps rest)
  | inr e ↦ rw e (keep-Apart p ps rest)
]

-- Where each pair has a port of its own out of the relay's range, it is still so after the pairs that
-- have gone quiet were closed.
reap-PortsOk : (now : ℕ) (t : Table) → PortsOk t → PortsOk (reap now t)
unfolding reap
reap-PortsOk now t ok = record {
  apart = keep-Apart _ t.pairs ok.apart;
  ranged = All-keep _ _ t.pairs ok.ranged;
  next_ranged = ok.next_ranged;
}

-- Where each pair has a port of its own out of the relay's range, it is still so after the pairs that
-- have gone quiet were closed, and after a pair was then looked up, and opened if need be, whichever
-- sockets can be opened.
pub pair_for-reap-PortsOk :
    (listens : ℕ → Bool) (host_pid joiner_pid now later : ℕ) (host : Endpoint) (t : Table)
    → PortsOk t
    → PortsOk (pair_for listens host_pid joiner_pid host now (reap later t)).0
pair_for-reap-PortsOk listens host_pid joiner_pid now later host t ok =
    pair_for-PortsOk listens host_pid joiner_pid now host (reap later t) (reap-PortsOk later t ok)
