-- ===== src/Engine/Requests.antt =====
-- src/engine.rs, `want` and `release`: what hosts can ask for.
use fan_control_lian_li_wire.Base.{
  ℕ, ◌≤◌, min, max, ◌≡◌, sym, subst, inl, inr, ◌||◌, some, List, [], ◌∷◌, arith, Bool-cases, All,
  Bytes, bytes_eq, get, insert, remove,
}
use fan_control_lian_li_wire.Tracker.{clear_target}
use fan_control_lian_li_wire.Engine.{Core, push_event, clamp_percent, want, is_some, release}
use fan_control_lian_li_wire.Engine.Tick.{Request, want_percent, release_group, serve, serve_all}
use fan_control_lian_li_wire.Engine
use fan_control_lian_li_wire.Speed

abbrev pub IsAllowed : Bytes × ℕ → Type 0
IsAllowed e = (30 ≤ e.1) × (e.1 ≤ 100)

insert-IsAllowed :
    (entries : List (Bytes × ℕ)) (mac : Bytes) (percent : ℕ)
    → (30 ≤ percent) × (percent ≤ 100)
    → All IsAllowed entries
    → All IsAllowed (insert entries mac percent)
insert-IsAllowed [] mac percent p h = (p, tt)
insert-IsAllowed ((at, held) ∷ rest) mac percent p h = elim (Bool-cases (bytes_eq at mac)) [
  | inl e ↦ rw e (p, h.1)
  | inr e ↦ rw e (h.0, insert-IsAllowed rest mac percent p h.1)
]

remove-IsAllowed :
    (entries : List (Bytes × ℕ)) (mac : Bytes)
    → All IsAllowed entries
    → All IsAllowed (remove entries mac)
remove-IsAllowed [] mac h = tt
remove-IsAllowed ((at, held) ∷ rest) mac h = elim (Bool-cases (bytes_eq at mac)) [
  | inl e ↦ rw e (remove-IsAllowed rest mac h.1)
  | inr e ↦ rw e (h.0, remove-IsAllowed rest mac h.1)
]

pub wanted-release : (c : Core) (mac : Bytes) → (release c mac).wanted ≡ remove c.wanted mac
unfolding release push_event
wanted-release c mac =
    elim (Bool-cases (is_some (get c.wanted mac) || (clear_target c.tracker mac).1)) [
      | inl e ↦ rw (e, release)
      | inr e ↦ rw (e, release)
    ]

serve-IsAllowed :
    (c : Core) (r : Request) → All IsAllowed c.wanted → All IsAllowed (serve c r).wanted
unfolding serve want clamp_percent
serve-IsAllowed c (want_percent mac percent) h =
    insert-IsAllowed c.wanted mac (max 30 (min percent 100)) (omega arith, omega arith) h
serve-IsAllowed c (release_group mac) h =
    subst (All IsAllowed) (sym (wanted-release c mac)) (remove-IsAllowed c.wanted mac h)

pub serve_all-IsAllowed :
    (c : Core) (rs : List Request) → All IsAllowed c.wanted → All IsAllowed (serve_all c rs).wanted
unfolding serve_all
serve_all-IsAllowed c [] h = h
serve_all-IsAllowed c (r ∷ rs) h = serve_all-IsAllowed (serve c r) rs (serve-IsAllowed c r h)

get-IsAllowed :
    (entries : List (Bytes × ℕ)) (mac : Bytes) (percent : ℕ)
    → All IsAllowed entries
    → get entries mac ≡ some percent
    → (30 ≤ percent) × (percent ≤ 100)
get-IsAllowed [] mac percent h e = absurd (ground (arith, e))
get-IsAllowed ((at, held) ∷ rest) mac percent h e = elim (Bool-cases (bytes_eq at mac)) [
  | inl k ↦
      let same : held ≡ percent = ground (arith, rw k at e) in
      subst (λ n. (30 ≤ n) × (n ≤ 100)) same h.0
  | inr k ↦ get-IsAllowed rest mac percent h.1 (rw k at e)
]

-- Whatever hosts ask of a new core, in any order, what it then wants of a group is between 30 and
-- 100 per cent, and so between 77 and 255 as a duty.
pub serve_all-floor :
    (master : Bytes) (channel : ℕ) (rs : List Request) (mac : Bytes) (percent : ℕ)
    → get (serve_all (Engine.new master channel) rs).wanted mac ≡ some percent
    → (30 ≤ percent)
      × (percent ≤ 100)
      × (77 ≤ Speed.duty_from_percent percent)
      × (Speed.duty_from_percent percent ≤ 255)
unfolding Engine.new Speed.duty_from_percent
serve_all-floor master channel rs mac percent e =
    let (low, high) =
      get-IsAllowed _ mac percent (serve_all-IsAllowed (Engine.new master channel) rs tt) e in
    (low, high, omega (arith, low, high), omega (arith, low, high))
