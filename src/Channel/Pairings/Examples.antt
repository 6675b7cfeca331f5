-- ===== src/Channel/Pairings/Examples.antt =====
-- A code that one chat uses, and another then tries.
use foya.Prelude.{◌≡◌, refl, some, List, [], ◌∷◌, Text, text, text_eq, trim_space}
use foya.Prelude.Map.{lookup, insert}
use foya.Prelude.Result.{Result, err}
use foya.Channel.Pairings.{Error, Binding, Pairing, Store, completed, new_store, create, expire}
use foya.Prelude.Names.{member}
use foya.Channel.Pairings.Calls.{Op, creates, gets, run}
use foya.Channel.Pairings.Consume.{consume}
use foya.Channel.Pairings.Once.{consume-once}

abbrev same : Text → Text
same t = t

abbrev sessions : List Text
sessions = text "s1" ∷ []

abbrev created : Store
created =
    (create (some (text "p1")) (text "ABC" ∷ []) 5 sessions (text "c1") (text "s1") new_store).0

abbrev binding : Binding
binding = record {
  channel_id = text "c1";
  conversation_key = text "k1";
  active_session_id = text "s1";
}

abbrev used : Store × Result Error Pairing
used = consume same 9 sessions (text "c1") (text "ABC") (text "k1") (some binding) created

abbrev pairing : Pairing
pairing = record {
  id = text "p1";
  code = text "ABC";
  command = text "/bind ABC";
  channel_id = text "c1";
  session_id = text "s1";
  status = completed;
  conversation = some binding;
  created_at = 5;
  expires_at = 605;
  completed_at = some 9;
}

-- An hour passes, and another code is drawn.
abbrev between : List Op
between =
    gets 15 (text "p1")
    ∷ creates (some (text "p2")) (text "ABD" ∷ []) 5000 sessions (text "c1") (text "s1")
    ∷ []

consume-once_example :
    (e : Error) × ((consume same 5001 sessions
        (text "c1")
        (text "ABC")
        (text "k2")
        (some binding)
        (run same between used.0)).1
      ≡ err e)
unfolding consume trim_space lookup create text_eq new_store insert expire member
consume-once_example =
    consume-once same (text "ABC") (text "p1") 9 5001 sessions sessions (text "c1") (text "c1")
      (text "k1") (text "k2") (some binding) (some binding) between created used.0 pairing refl refl
      (tt, ((refl, refl), tt)) refl
