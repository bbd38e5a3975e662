-- ===== src/Gates/Lookup.antt =====
-- pidForConsoleID (accountlookup.go), in two parts: what is answered before the account server is
-- asked, and what is kept of its answer; other lookups may run in between. Times are in nanoseconds.
use nextendo_demonware.Common.{
  [], ℕ, ◌+◌, ◌-◌, ◌*◌, ◌^◌, Bool, true, false, List, Option, none, some, length, ltb, leb,
  if◌then◌else◌,
}
use nextendo_demonware.Presence.Table.{lookup, insert}

-- resolved.
pub record Resolved : Type 0 where
  pub pid : ℕ
  pub ok : Bool
  pub at : ℕ

-- The cache, and the time before which the account server is not asked.
pub record Cache : Type 0 where
  pub entries : List (ℕ × Resolved)
  pub down_until : ℕ

abbrev pub hit_ttl : ℕ
hit_ttl = 300 * 10 ^ 9

abbrev pub miss_ttl : ℕ
miss_ttl = 30 * 10 ^ 9

abbrev pub max_keep : ℕ
max_keep = 4096

abbrev pub answer_of : Resolved → Option ℕ
answer_of r = if r.ok then some r.pid else none

unfoldable pub is_fresh : ℕ → Resolved → Bool
is_fresh now r = ltb (now - r.at) (if r.ok then hit_ttl else miss_ttl)

-- An answer without a call, or none.
pub data Known : Type 0 where
  answered : Option ℕ → Known
  must_ask : Known

abbrev pub or_ask : ℕ → Cache → Known
or_ask now c = if ltb now c.down_until then answered none else must_ask

abbrev pub from_entry : ℕ → Cache → Option Resolved → Known
from_entry now c none = or_ask now c
from_entry now c (some r) = if is_fresh now r then answered (answer_of r) else or_ask now c

unfoldable pub ask_cache : ℕ → ℕ → Cache → Known
ask_cache now id c = from_entry now c (lookup id c.entries)

-- The account server's answer: not reachable, no account, or an account.
pub data Fetched : Type 0 where
  unreachable : Fetched
  missing : Fetched
  found : ℕ → Fetched

abbrev resolved_of : ℕ → Fetched → Option Resolved
resolved_of now unreachable = none
resolved_of now missing = some (record { pid = 0; ok = false; at = now })
resolved_of now (found pid) = some (record { pid = pid; ok = true; at = now })

abbrev pub keep_answer : ℕ → ℕ → Cache → Option Resolved → Cache × Option ℕ
keep_answer now id c none = (record c { down_until = now + miss_ttl }, none)
keep_answer now id c (some r) = (
  record c { entries = insert id r (if leb max_keep (length c.entries) then [] else c.entries) },
  answer_of r,
)

unfoldable pub remember : ℕ → ℕ → Fetched → Cache → Cache × Option ℕ
remember now id fetched c = keep_answer now id c (resolved_of now fetched)

-- What is returned, and the cache, where no other lookup runs in between.
abbrev pub complete : ℕ → ℕ → Fetched → Cache → Known → Cache × Option ℕ
complete now id fetched c (answered a) = (c, a)
complete now id fetched c must_ask = remember now id fetched c

unfoldable pub pid_for_console_id : ℕ → ℕ → Fetched → Cache → Cache × Option ℕ
pid_for_console_id now id fetched c = complete now id fetched c (ask_cache now id c)
