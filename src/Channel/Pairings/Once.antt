-- ===== src/Channel/Pairings/Once.antt =====
-- internal/channel/pairings.go: what becomes of a pairing that is completed.
use foya.Prelude.{
  ℕ, ◌≡◌, refl, sym, ap, ◌∙◌, subst, ◌⊎◌, inl, inr, Bool, true, false, ◌||◌, not, Option, none,
  some, List, if◌then◌else◌, is_empty, Text, text_eq, trim_space,
}
use foya.Prelude.Names.{member}
use foya.Prelude.Map.{lookup, lookup-insert_self}
use foya.Prelude.Result.{Result, ok, err}
use foya.Channel.Pairings.{
  Error, not_found, already_used, Status, pending, completed, expired, cancelled, Binding, Pairing,
  Store, expire, channel_mismatch,
}
use foya.Channel.Pairings.Consume.{is_bound_to, complete_with, use_as, use_found, use_code, consume}
use foya.Channel.Pairings.Later.{Stays, expire-Stays}
use foya.Channel.Pairings.Calls.{Op, run, AreApart, run-Stays}
use foya.Channel.Pairings.Aging.{is_completed}

-- What a call that succeeds leaves: the pairing, completed, under its code.
record IsUsed (o : Option Text) (s s' : Store) (p : Pairing) : Type 0 where
  id : Text
  found : o ≡ some id
  kept : lookup id s'.pairings ≡ some p
  done : is_completed p.status ≡ true
  codes : s'.by_code ≡ s.by_code

abbrev UsedBy : Option Text → Store → Store × Result Error Pairing → Type 0
UsedBy o s (s', ok p) = IsUsed o s s' p
UsedBy o s (s', err e) = Unit

if-UsedBy :
    (o : Option Text) (s : Store) (b : Bool) (x y : Store × Result Error Pairing)
    → UsedBy o s x
    → UsedBy o s y
    → UsedBy o s (if b then x else y)
if-UsedBy o s true x y h k = h
if-UsedBy o s false x y h k = k

abbrev Refused : Store × Result Error Pairing → Type 0
Refused x = (e : Error) × (x.1 ≡ err e)

if-Refused :
    (b : Bool) (x y : Store × Result Error Pairing)
    → Refused x
    → Refused y
    → Refused (if b then x else y)
if-Refused true x y h k = h
if-Refused false x y h k = k

module _ (now : ℕ) (sessions : List Text) (key : Text) where
  complete_with-UsedBy :
      (binding : Option Binding) (p : Pairing) (id : Text) (s : Store)
      → UsedBy (some id) s (complete_with now binding p id s)
  complete_with-UsedBy none p id s = tt
  complete_with-UsedBy (some b) p id s = record {
    id = id;
    found = refl;
    kept =
        lookup-insert_self id
          (record p { status = completed; conversation = some b; completed_at = some now })
          s.pairings;
    done = refl;
    codes = refl;
  }

  use_as-UsedBy :
      (binding : Option Binding) (st : Status) (p : Pairing) (id : Text) (s : Store)
      → p.status ≡ st
      → lookup id s.pairings ≡ some p
      → UsedBy (some id) s (use_as st now sessions key binding p id s)
  use_as-UsedBy binding expired p id s e l = tt
  use_as-UsedBy binding cancelled p id s e l = tt
  use_as-UsedBy binding completed p id s e l =
      if-UsedBy (some id) s (is_bound_to key p.conversation) (s, ok p) (s, err already_used)
        (record { id = id; found = refl; kept = l; done = ap is_completed e; codes = refl }) tt
  use_as-UsedBy binding pending p id s e l =
      if-UsedBy (some id) s (not (member p.session_id sessions)) _
        (complete_with now binding p id s) tt (complete_with-UsedBy binding p id s)

  use_found-UsedBy :
      (channel_id : Text) (binding : Option Binding) (o : Option Pairing) (id : Text) (s : Store)
      → lookup id s.pairings ≡ o
      → UsedBy (some id) s (use_found now sessions channel_id key binding o id s)
  use_found-UsedBy channel_id binding none id s l = tt
  use_found-UsedBy channel_id binding (some p) id s l =
      if-UsedBy (some id) s (not (text_eq p.channel_id channel_id)) (s, err channel_mismatch)
        (use_as p.status now sessions key binding p id s) tt
        (use_as-UsedBy binding p.status p id s refl l)

  use_code-UsedBy :
      (channel_id : Text) (binding : Option Binding) (o : Option Text) (s : Store)
      → UsedBy o s (use_code now sessions channel_id key binding o s)
  use_code-UsedBy channel_id binding none s = tt
  use_code-UsedBy channel_id binding (some id) s =
      use_found-UsedBy channel_id binding (lookup id s.pairings) id s refl

  use_as-Refused :
      (binding : Option Binding) (st : Status) (p : Pairing) (id : Text) (s : Store)
      → is_completed st ≡ true
      → is_bound_to key p.conversation ≡ false
      → Refused (use_as st now sessions key binding p id s)
  use_as-Refused binding completed p id s c b = rw (b) (already_used, refl)
  use_as-Refused binding pending p id s c b = cc
  use_as-Refused binding expired p id s c b = cc
  use_as-Refused binding cancelled p id s c b = cc

  use_found-Refused :
      (channel_id : Text) (binding : Option Binding) (p : Pairing) (id : Text) (s : Store)
      → is_completed p.status ≡ true
      → is_bound_to key p.conversation ≡ false
      → Refused (use_found now sessions channel_id key binding (some p) id s)
  use_found-Refused channel_id binding p id s c b =
      if-Refused (not (text_eq p.channel_id channel_id)) (s, err channel_mismatch)
        (use_as p.status now sessions key binding p id s) (channel_mismatch, refl)
        (use_as-Refused binding p.status p id s c b)

  -- A call with the pairing completed and bound to another conversation.
  use_code-Refused :
      (channel_id : Text) (binding : Option Binding) (o : Option Text) (id : Text) (p : Pairing)
      (s : Store)
      → (o ≡ none) ⊎ (o ≡ some id)
      → lookup id s.pairings ≡ some p
      → is_completed p.status ≡ true
      → is_bound_to key p.conversation ≡ false
      → Refused (use_code now sessions channel_id key binding o s)
  use_code-Refused channel_id binding o id p s (inl n) l c b =
      subst (λ x. Refused (use_code now sessions channel_id key binding x s)) (sym n)
        (not_found, refl)
  use_code-Refused channel_id binding o id p s (inr n) l c b =
      subst (λ x. Refused (use_code now sessions channel_id key binding x s)) (sym n)
        (subst (λ x. Refused (use_found now sessions channel_id key binding x id s)) (sym l)
          (use_found-Refused channel_id binding p id s c b))

consume-UsedBy :
    (to_upper : Text → Text) (now : ℕ) (sessions : List Text) (channel typed key : Text)
    (binding : Option Binding) (s : Store)
    → UsedBy
        (lookup (to_upper (trim_space typed)) (expire now s).by_code)
        (expire now s)
        (consume to_upper now sessions channel typed key binding s)
unfolding consume
consume-UsedBy to_upper now sessions channel typed key binding s =
    let code = to_upper (trim_space typed) in
    if-UsedBy (lookup code (expire now s).by_code) (expire now s)
      (is_empty (trim_space channel) || is_empty code) (s, err not_found)
      (use_code now sessions (trim_space channel) key binding (lookup code (expire now s).by_code)
        (expire now s))
      tt
      (use_code-UsedBy now sessions key (trim_space channel) binding
        (lookup code (expire now s).by_code) (expire now s))

-- Once a call has used a code, a call with it from another conversation than the pairing's is refused,
-- whatever calls come in between, however much later it comes, from whatever channel and whatever
-- sessions there are, as long as no `Create` in between draws the pairing's name or the code again.
pub consume-once :
    (to_upper : Text → Text) (typed id : Text) (now later : ℕ) (sessions sessions' : List Text)
    (channel channel' key key' : Text) (binding binding' : Option Binding) (os : List Op)
    (s s' : Store) (p : Pairing)
    → lookup (to_upper (trim_space typed)) (expire now s).by_code ≡ some id
    → consume to_upper now sessions channel typed key binding s ≡ (s', ok p)
    → AreApart id (to_upper (trim_space typed)) os
    → is_bound_to key' p.conversation ≡ false
    → (e : Error) × ((consume to_upper later sessions' channel' typed key' binding'
          (run to_upper os s')).1
        ≡ err e)
unfolding consume
consume-once to_upper typed id now later sessions sessions' channel channel' key key' binding
      binding' os s s' p l h a b =
    let code = to_upper (trim_space typed) in
    let s1 = expire now s in
    let u : IsUsed (lookup code s1.by_code) s1 s' p =
      subst (UsedBy (lookup code s1.by_code) s1) h
        (consume-UsedBy to_upper now sessions channel typed key binding s) in
    let found : some id ≡ some u.id = sym l ∙ u.found in
    let same : u.id ≡ id = cc in
    let used : Stays id code p s' = record {
      kept = subst (λ i. lookup i s'.pairings ≡ some p) same u.kept;
      leads = inr (ap (lookup code) u.codes ∙ l);
    } in
    let t0 = run to_upper os s' in
    let t = expire later t0 in
    let k =
      expire-Stays id code p u.done later t0 (run-Stays id code p u.done to_upper os s' a used) in
    if-Refused (is_empty (trim_space channel') || is_empty code) (t0, err not_found)
      (use_code later sessions' (trim_space channel') key' binding' (lookup code t.by_code) t)
      (not_found, refl)
      (use_code-Refused later sessions' key' (trim_space channel') binding' (lookup code t.by_code)
        id p t k.leads k.kept u.done b)
