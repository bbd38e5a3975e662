-- ===== src/Relay/Table.antt =====
-- relayTable (ctr_relay.go). The maps `pairs` and `byPort` hold the same pairs, which are a list here;
-- the key of a pair is the bytes of its two accounts, and so the accounts.
use nextendo_demonware.Common.{
  ℕ, zero, suc, ◌+◌, ◌-◌, Bool, false, not, ◌&&◌, ◌||◌, List, [], ◌∷◌, ◌++◌, Option, none, some,
  ltb, leb, ◌==◌, if◌then◌else◌, length, map,
}
use nextendo_demonware.Common.Select.{keep, any, find, bytes_eq}
use nextendo_demonware.Relay.Address.{Endpoint, common_addr_len, host_public_addr, fill_slot}

-- relayPair, with the accounts of its key.
pub record Pair : Type 0 where
  pub host_pid : ℕ
  pub joiner_pid : ℕ
  pub port : ℕ
  pub host : Endpoint
  pub joiner : Option Endpoint
  pub last : ℕ

pub record Table : Type 0 where
  pub pairs : List Pair
  pub low : ℕ
  pub high : ℕ
  pub next : ℕ
  pub ip : List ℕ

abbrev pub is_pair : ℕ → ℕ → Pair → Bool
is_pair host_pid joiner_pid p = p.host_pid == host_pid && p.joiner_pid == joiner_pid

abbrev pub is_busy : Table → ℕ → Bool
is_busy t port = any (λ (p : Pair). p.port == port) t.pairs

-- t.next, behind the port that is tried.
abbrev pub turn : Table → Table
turn t = record t { next = if ltb t.high (t.next + 1) then t.low else t.next + 1 }

-- The loop over the tries. `listens` says whether a socket can be opened at a port.
unfoldable pub open_loop : (ℕ → Bool) → ℕ → Table → Table × Option ℕ
open_loop listens zero t = (t, none)
open_loop listens (suc tries) t =
    let later = open_loop listens tries (turn t) in
    if is_busy t t.next || not (listens t.next) then later else (turn t, some t.next)

abbrev pub add_pair : ℕ → ℕ → Endpoint → ℕ → Table × Option ℕ → Table × Option ℕ
add_pair host_pid joiner_pid host now (t, none) = (t, none)
add_pair host_pid joiner_pid host now (t, some port) = (
  record t {
    pairs =
        t.pairs
        ++ record {
          host_pid = host_pid;
          joiner_pid = joiner_pid;
          port = port;
          host = host;
          joiner = none;
          last = now;
        }
          ∷ [];
  },
  some port,
)

abbrev pub renew : ℕ → ℕ → Endpoint → ℕ → Pair → Pair
renew host_pid joiner_pid host now p =
    if is_pair host_pid joiner_pid p then record p { host = host; last = now } else p

-- pairFor: the port of the pair, which is opened at first use.
unfoldable pub pair_for : (ℕ → Bool) → ℕ → ℕ → Endpoint → ℕ → Table → Table × Option ℕ
unfolding open_loop
pair_for listens host_pid joiner_pid host now t =
    elim (find (is_pair host_pid joiner_pid) t.pairs) [
      | some p ↦
          (record t { pairs = map (renew host_pid joiner_pid host now) t.pairs }, some p.port)
      | none ↦ add_pair host_pid joiner_pid host now (open_loop listens (suc (t.high - t.low)) t)
    ]

unfoldable relay_enabled : Table → Bool
relay_enabled t = leb t.low t.high && ltb 0 t.low

abbrev offer : List ℕ → Table × Option ℕ → Table × List ℕ
offer host_addr (t, none) = (t, host_addr)
offer host_addr (t, some port) = (t, fill_slot 9 1 (record { ip = t.ip; port = port }) host_addr)

-- withRelay. `relayed` says whether the joiner is among those of relayFor.
unfoldable with_relay : (ℕ → Bool) → Bool → List ℕ → ℕ → ℕ → ℕ → Table → Table × List ℕ
unfolding relay_enabled pair_for host_public_addr fill_slot
with_relay listens relayed host_addr host_pid joiner_pid now t =
    if not (relay_enabled t)
      || ltb (length host_addr) common_addr_len
      || host_pid == 0
      || joiner_pid == 0
      || host_pid == joiner_pid
      || not relayed
    then (t, host_addr)
    else (elim (host_public_addr host_addr) [
      | none ↦ (t, host_addr)
      | some dst ↦ offer host_addr (pair_for listens host_pid joiner_pid dst now t)
    ])

abbrev same_endpoint : Endpoint → Endpoint → Bool
same_endpoint a b = bytes_eq a.ip b.ip && a.port == b.port

abbrev is_joiner : Endpoint → Option Endpoint → Bool
is_joiner src none = false
is_joiner src (some j) = same_endpoint src j

-- One packet of serve: the pair afterwards, and where the packet goes.
unfoldable pub forward : Endpoint → ℕ → Pair → Pair × Option Endpoint
unfolding bytes_eq
forward src now p =
    if same_endpoint src p.host
    then (record p { last = now }, p.joiner)
    else if is_joiner src p.joiner
    then (record p { last = now }, some p.host)
    else (record p { joiner = some src; last = now }, some p.host)

-- reap: pairs that have been quiet for two minutes are closed.
unfoldable pub reap : ℕ → Table → Table
reap now t = record t { pairs = keep (λ (p : Pair). ltb now (p.last + 120)) t.pairs }
