-- ===== src/Conference/Picker/Settling.antt =====
-- Each pick settles once, and each subscribed callback has been given the current state.
use mattermost_plugin_openta.Base.{
  ℕ, suc, String, ◌≡◌, refl, Bool, true, Option, none, some, List, [], ◌∷◌, nat_eq, ltb, subst,
  arith, if◌then◌else◌,
}
use mattermost_plugin_openta.Conference.Picker.{
  DesktopSource, View, Picker, new_picker, view, tell, notify, drop, subscribe, unsubscribe,
  resolve_with, resolve_screen_picker, pick_screen_source, PickerCall, picks, resolves, subscribes,
  unsubscribes, step, run,
}

-- How often a promise has settled.
abbrev pub settlements : ℕ → List (ℕ × Option String) → ℕ
settlements n [] = 0
settlements n ((m, id) ∷ ss) = if nat_eq m n then suc (settlements n ss) else settlements n ss

-- A promise that was given is the open picker's, or has settled once.
abbrev pub expected : ℕ → Option ℕ → ℕ → ℕ
expected fresh none n = if ltb n fresh then 1 else 0
expected fresh (some r) n = if nat_eq r n then 0 else if ltb n fresh then 1 else 0

abbrev is_given : ℕ → Option ℕ → Bool
is_given fresh none = true
is_given fresh (some r) = ltb r fresh

abbrev pub AllSee : View → List (ℕ × View) → Type 0
AllSee v [] = Unit
AllSee v ((n, w) ∷ ls) = (w ≡ v) × AllSee v ls

pub record IsSettling (p : Picker) : Type 0 where
  pub once : (n : ℕ) → settlements n p.settled ≡ expected p.fresh p.pending n
  pub given : is_given p.fresh p.pending ≡ true
  pub told : AllSee (view p) p.listeners

tell-AllSee : (v : View) (ls : List (ℕ × View)) → AllSee v (tell v ls)
tell-AllSee v [] = tt
tell-AllSee v ((n, w) ∷ ls) = (refl, tell-AllSee v ls)

drop-AllSee : (n : ℕ) (v : View) (ls : List (ℕ × View)) → AllSee v ls → AllSee v (drop n ls)
drop-AllSee n v [] h = tt
drop-AllSee n v ((m, w) ∷ ls) h = ground (arith, drop-AllSee n v ls h.1)

settled_one :
    (fresh r n x : ℕ)
    → x ≡ expected fresh (some r) n
    → ltb r fresh ≡ true
    → (if nat_eq r n then suc x else x) ≡ expected fresh none n
settled_one fresh r n x h g = ground arith

given_one : (fresh n x : ℕ) → x ≡ expected fresh none n → x ≡ expected (suc fresh) (some fresh) n
given_one fresh n x h = ground arith

given_fresh : (n : ℕ) → ltb n (suc n) ≡ true
given_fresh n = ground arith

resolve-IsSettling :
    (o : Option ℕ) (id : Option String) (p : Picker)
    → p.pending ≡ o
    → IsSettling p
    → IsSettling (resolve_with o id p) × ((resolve_with o id p).pending ≡ none)
unfolding notify
resolve-IsSettling none id p e v = (v, e)
resolve-IsSettling (some r) id p e v = (
  record {
    once = λ n.
        settled_one p.fresh r n (settlements n p.settled)
          (subst (λ o. settlements n p.settled ≡ expected p.fresh o n) e (v.once n))
          (subst (λ o. is_given p.fresh o ≡ true) e v.given);
    given = refl;
    told = tell-AllSee _ p.listeners;
  },
  refl,
)

pick-IsSettling :
    (sources : List DesktopSource) (p : Picker)
    → IsSettling p
    → IsSettling (pick_screen_source sources p)
unfolding pick_screen_source resolve_screen_picker notify
pick-IsSettling sources p v =
    let q = resolve_with p.pending none p in
    let (s, e) = resolve-IsSettling p.pending none p refl v in
    record {
      once = λ n.
          given_one q.fresh n (settlements n q.settled)
            (subst (λ o. settlements n q.settled ≡ expected q.fresh o n) e (s.once n));
      given = given_fresh q.fresh;
      told = tell-AllSee _ q.listeners;
    }

step-IsSettling : (c : PickerCall) (p : Picker) → IsSettling p → IsSettling (step c p)
unfolding step subscribe unsubscribe resolve_screen_picker
step-IsSettling (picks sources) p v = pick-IsSettling sources p v
step-IsSettling (resolves id) p v = (resolve-IsSettling p.pending id p refl v).0
step-IsSettling (subscribes n) p v = record {
  once = v.once;
  given = v.given;
  told = (refl, drop-AllSee n _ p.listeners v.told);
}
step-IsSettling (unsubscribes n) p v = record {
  once = v.once;
  given = v.given;
  told = drop-AllSee n _ p.listeners v.told;
}

run_from-IsSettling : (cs : List PickerCall) (p : Picker) → IsSettling p → IsSettling (run cs p)
unfolding run
run_from-IsSettling [] p v = v
run_from-IsSettling (c ∷ cs) p v = run_from-IsSettling cs (step c p) (step-IsSettling c p v)

-- After any calls from the start, every promise that `pickScreenSource` gave has settled exactly once,
-- but the one that is pending not at all, no other promise has settled, the pending one was given, and
-- every subscribed callback was last given the current state.
pub run-IsSettling : (cs : List PickerCall) → IsSettling (run cs new_picker)
run-IsSettling cs =
    run_from-IsSettling cs new_picker (record { once = λ n. ground arith; given = refl; told = tt })
