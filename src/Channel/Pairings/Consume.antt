-- ===== src/Channel/Pairings/Consume.antt =====
-- internal/channel/pairings.go: `Consume`.
use foya.Prelude.{
  ℕ, Bool, false, ◌||◌, not, Option, none, some, List, is_empty, if◌then◌else◌, Text, text_eq,
  trim_space,
}
use foya.Prelude.Names.{member}
use foya.Prelude.Map.{lookup, delete}
use foya.Prelude.Result.{Result, ok, err}
use foya.Channel.Pairings.{
  Error, not_found, expired_code, already_used, channel_mismatch, session_not_found, binding_failed,
  Status, pending, completed, expired, cancelled, Binding, Pairing, Store, set_status, with_pairing,
  expire,
}

abbrev pub is_bound_to : Text → Option Binding → Bool
is_bound_to key none = false
is_bound_to key (some b) = text_eq b.conversation_key key

abbrev pub complete_with :
    ℕ → Option Binding → Pairing → Text → Store → Store × Result Error Pairing
complete_with now none p id s = (s, err binding_failed)
complete_with now (some b) p id s =
    let p' = record p { status = completed; conversation = some b; completed_at = some now } in
    (with_pairing id p' s, ok p')

-- The pairing of a code by its status, once its channel is right.
abbrev pub use_as :
    Status
    → ℕ
    → List Text
    → Text
    → Option Binding
    → Pairing
    → Text
    → Store
    → Store × Result Error Pairing
use_as expired now sessions key binding p id s = (s, err expired_code)
use_as cancelled now sessions key binding p id s = (s, err not_found)
use_as completed now sessions key binding p id s =
    if is_bound_to key p.conversation then (s, ok p) else (s, err already_used)
use_as pending now sessions key binding p id s =
    if not (member p.session_id sessions)
    then (
      record (with_pairing id (set_status cancelled p) s) { by_code = delete p.code s.by_code },
      err session_not_found,
    )
    else complete_with now binding p id s

abbrev pub use_found :
    ℕ
    → List Text
    → Text
    → Text
    → Option Binding
    → Option Pairing
    → Text
    → Store
    → Store × Result Error Pairing
use_found now sessions channel_id key binding none id s = (s, err not_found)
use_found now sessions channel_id key binding (some p) id s =
    if not (text_eq p.channel_id channel_id)
    then (s, err channel_mismatch)
    else use_as p.status now sessions key binding p id s

abbrev pub use_code :
    ℕ
    → List Text
    → Text
    → Text
    → Option Binding
    → Option Text
    → Store
    → Store × Result Error Pairing
use_code now sessions channel_id key binding none s = (s, err not_found)
use_code now sessions channel_id key binding (some id) s =
    use_found now sessions channel_id key binding (lookup id s.pairings) id s

unfoldable pub consume :
    (Text → Text)
    → ℕ
    → List Text
    → Text
    → Text
    → Text
    → Option Binding
    → Store
    → Store × Result Error Pairing
unfolding expire
consume to_upper now sessions channel typed key binding s =
    let channel_id = trim_space channel in
    let code = to_upper (trim_space typed) in
    if is_empty channel_id || is_empty code
    then (s, err not_found)
    else (let s1 = expire now s in
        use_code now sessions channel_id key binding (lookup code s1.by_code) s1)
