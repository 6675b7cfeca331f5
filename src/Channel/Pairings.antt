-- ===== src/Channel/Pairings.antt =====
-- internal/channel/pairings.go: codes with which a chat is bound to a session. A pairing is shared by the
-- three maps of the store, so the store has its pairings by name and the maps hold names. The clock, new
-- names and codes and the sessions that exist are arguments, as is the binding that the database gives
-- back, `none` where one of its three calls fails. `strings.ToUpper` and the comparison that ignores
-- case are arguments too.
pub mod Consume
pub mod Aging
pub mod Later
pub mod Calls
pub mod Once
mod Examples
use foya.Prelude.{
  ℕ, zero, suc, ◌+◌, ◌-◌, Bool, true, false, ◌&&◌, ◌||◌, not, Option, none, some, List, [], ◌∷◌,
  ◌++◌, length, is_empty, if◌then◌else◌, ltb, leb, ◌==◌, Text, text, text_eq, trim_space,
}
use foya.Prelude.Names.{member}
use foya.Prelude.Words.{fields}
use foya.Prelude.Map.{Map, lookup, insert, delete}
use foya.Prelude.Result.{Result, ok, err}

pub data Error : Type 0 where
  ids_required not_found expired_code already_used channel_mismatch session_not_found : Error
  no_random no_unique_code binding_failed : Error

pub data Status : Type 0 where
  pending completed expired cancelled : Status

-- A conversation of a channel, by its key and the rest.
pub record Binding : Type 0 where
  pub channel_id : Text
  pub conversation_key : Text
  pub active_session_id : Text

pub record Pairing : Type 0 where
  pub id : Text
  pub code : Text
  pub command : Text
  pub channel_id : Text
  pub session_id : Text
  pub status : Status
  pub conversation : Option Binding
  pub created_at : ℕ
  pub expires_at : ℕ
  pub completed_at : Option ℕ

pub record Store : Type 0 where
  pub ttl : ℕ
  pub pairings : Map Pairing
  pub by_id : List Text
  pub by_code : Map Text
  pub by_session : Map Text

-- Times are in seconds.
abbrev pub default_pairing_ttl : ℕ
default_pairing_ttl = 600

unfoldable pub new_store : Store
new_store = record {
  ttl = default_pairing_ttl;
  pairings = [];
  by_id = [];
  by_code = [];
  by_session = [];
}

abbrev before_at : Text → Text
before_at [] = []
before_at (c ∷ s) = if c == 64 then [] else c ∷ before_at s

-- The code of a command, with whether the text is one at all.
unfoldable pub parse_pairing_command : (Text → Text) → (Text → Text → Bool) → Text → Text × Bool
unfolding fields trim_space
parse_pairing_command to_upper equal_fold content = elim (fields (trim_space content)) [
  | [] ↦ ([], false)
  | w ∷ ws ↦ if not (equal_fold (before_at w) (text "/bind")) then ([], false) else elim ws [
    | [] ↦ ([], true)
    | code ∷ rest ↦ if is_empty rest then (to_upper (trim_space code), true) else ([], true)
  ]
]

abbrev pub is_pending : Status → Bool
is_pending pending = true
is_pending _ = false

abbrev pub set_status : Status → Pairing → Pairing
set_status st p = record p { status = st }

abbrev pub with_pairing : Text → Pairing → Store → Store
with_pairing id p s = record s { pairings = insert id p s.pairings }

-- The step of the first loop of `expireLocked`, on the pairing of a code.
abbrev pub expire_one : ℕ → Option Pairing → Text → Map Pairing → Map Pairing
expire_one now none id m = m
expire_one now (some p) id m =
    if is_pending p.status && leb p.expires_at now then insert id (set_status expired p) m else m

unfoldable pub expire_codes : ℕ → Map Text → Map Pairing → Map Pairing
expire_codes now [] m = m
expire_codes now ((code, id) ∷ codes) m = expire_codes now codes (expire_one now (lookup id m) id m)

abbrev pub names : Text → Option Text → Bool
names id none = false
names id (some j) = text_eq j id

abbrev pub forget : Pairing → Text → Store → Store
forget p id s = record s {
  by_code = delete p.code s.by_code;
  by_session =
      if names id (lookup p.session_id s.by_session)
      then delete p.session_id s.by_session
      else s.by_session;
}

-- The step of the second loop, and whether the pairing stays.
abbrev pub drop_one : ℕ → Option Pairing → Text → Store → Store × Bool
drop_one now none id s = (s, true)
drop_one now (some p) id s =
    if ltb (p.expires_at + 3600) now then (forget p id s, false) else (s, true)

unfoldable pub drop_old : ℕ → List Text → Store → Store
drop_old now [] s = record s { by_id = [] }
drop_old now (id ∷ ids) s =
    let (s', stays) = drop_one now (lookup id s.pairings) id s in
    let rest = drop_old now ids s' in
    if stays then record rest { by_id = id ∷ rest.by_id } else rest

unfoldable pub expire : ℕ → Store → Store
unfolding expire_codes drop_old
expire now s = drop_old now s.by_id (record s { pairings = expire_codes now s.by_code s.pairings })

-- The first of the codes that are tried which is free; there are eight.
unfoldable pub unique_code : List Text → Map Text → Option Text
unique_code [] codes = none
unique_code (c ∷ cs) codes = elim (lookup c codes) [
  | none ↦ some c
  | some id ↦ unique_code cs codes
]

abbrev pub cancel_pairing : Option Pairing → Text → Store → Store
cancel_pairing none id s = s
cancel_pairing (some p) id s =
    if is_pending p.status
    then record (with_pairing id (set_status cancelled p) s) { by_code = delete p.code s.by_code }
    else s

abbrev pub cancel_previous : Text → Store → Store
cancel_previous session_id s = elim (lookup session_id s.by_session) [
  | none ↦ s
  | some id ↦ cancel_pairing (lookup id s.pairings) id s
]

-- `Create` with the new name and the codes that it tries, `none` where there are no random bytes.
unfoldable pub create :
    Option Text → List Text → ℕ → List Text → Text → Text → Store → Store × Result Error Pairing
unfolding expire unique_code member
create new_id codes now sessions channel session s =
    let channel_id = trim_space channel in
    let session_id = trim_space session in
    if is_empty channel_id || is_empty session_id
    then (s, err ids_required)
    else if not (member session_id sessions)
    then (s, err session_not_found)
    else elim new_id [
      | none ↦ (s, err no_random)
      | some id ↦
          let s1 = expire now s in
          elim (unique_code codes s1.by_code) [
            | none ↦ (s1, err no_unique_code)
            | some code ↦
                let p : Pairing = record {
                  id = id;
                  code = code;
                  command = text "/bind " ++ code;
                  channel_id = channel_id;
                  session_id = session_id;
                  status = pending;
                  conversation = none;
                  created_at = now;
                  expires_at = now + s.ttl;
                  completed_at = none;
                } in
                let s2 = cancel_previous session_id s1 in
                (
                  record (with_pairing id p s2) {
                    by_id = id ∷ s2.by_id;
                    by_code = insert code id s2.by_code;
                    by_session = insert session_id id s2.by_session;
                  },
                  ok p,
                )
          ]
    ]

-- The pairing of `byID[id]`.
abbrev pub find : Text → Store → Option Pairing
find id s = if member id s.by_id then lookup id s.pairings else none

unfoldable pub get : ℕ → Text → Store → Store × Option Pairing
unfolding expire member
get now id s = let s1 = expire now s in (s1, find (trim_space id) s1)

unfoldable pub cancel : ℕ → Text → Store → Store × Option Error
unfolding expire member
cancel now id s =
    let s1 = expire now s in
    elim (find (trim_space id) s1) [
      | none ↦ (s1, some not_found)
      | some p ↦ (cancel_pairing (some p) (trim_space id) s1, none)
    ]
