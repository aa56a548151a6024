-- ===== src/Service/Shared.antt =====
-- What concurrent calls of `get_agent` return.
use mathlib.Core.Path.{subst}
use mysql_redshift_agent.Prelude.{
  ℕ, zero, suc, ◌+◌, ◌≤◌, ◌<◌, ◌≡◌, refl, ap, sym, ◌∙◌, Bool, true, false, Option, none, some, List,
  [], ◌∷◌, All, arith, is_some,
}
use mysql_redshift_agent.Service.Agent.{
  Global, Place, testing, constructing, storing, returning, returned, raised, move, CallStep, moves,
  skips, Reach, begun, stepped, unset, calls,
}

-- How many agents a call may still construct.
abbrev pending : Place → ℕ
pending testing = 1
pending constructing = 1
pending _ = 0

abbrev all_pending : List Place → ℕ
all_pending [] = 0
all_pending (p ∷ ps) = pending p + all_pending ps

-- What a place says of the global variable.
abbrev pub IsPlace : Global → Place → Type 0
IsPlace g (storing k) = k < g.built
IsPlace g returning = is_some g.agent ≡ true
IsPlace g (returned o) = (k : ℕ) × (o ≡ some k) × (k < g.built)
IsPlace g _ = Unit

abbrev IsStored : Option ℕ → ℕ → Type 0
IsStored none built = Unit
IsStored (some k) built = k < built

-- Nothing gets lost from one state of the variable to another.
record Grows (g g' : Global) : Type 0 where
  more : g.built ≤ g'.built
  stays : is_some g.agent ≡ true → is_some g'.agent ≡ true

Grows-IsPlace : {g g' : Global} (p : Place) → Grows g g' → IsPlace g p → IsPlace g' p
Grows-IsPlace testing w h = tt
Grows-IsPlace constructing w h = tt
Grows-IsPlace (storing k) w h = omega (arith, w.more)
Grows-IsPlace returning w h = w.stays h
Grows-IsPlace (returned o) w (k, e, l) = (k, e, omega (arith, w.more))
Grows-IsPlace raised w h = tt

Grows-All :
    {g g' : Global} (ps : List Place) → Grows g g' → All (IsPlace g) ps → All (IsPlace g') ps
Grows-All [] w h = tt
Grows-All (p ∷ ps) w h = (Grows-IsPlace p w h.0, Grows-All ps w h.1)

returned_some :
    (o : Option ℕ) (n : ℕ) → is_some o ≡ true → IsStored o n → (k : ℕ) × (o ≡ some k) × (k < n)
returned_some none n h s = absurd (cc h)
returned_some (some k) n h s = (k, refl, s)

-- One step of a call: the variable only grows, the place fits it again, and a construction is paid for.
record Moved (g : Global) (p : Place) (x : Global × Place) : Type 0 where
  grows : Grows g x.0
  stored : IsStored x.0.agent x.0.built
  place : IsPlace x.0 x.1
  paid : x.0.built + pending x.1 ≤ g.built + pending p

unchanged : (g : Global) → Grows g g
unchanged g = record { more = omega arith; stays = λ h. h }

testing-Moved :
    (fails : Bool) (o : Option ℕ) (n : ℕ)
    → IsStored o n
    → Moved
        (record { agent = o; built = n })
        testing
        (move fails (record { agent = o; built = n }) testing)
unfolding move
testing-Moved fails none n s = record {
  grows = unchanged _;
  stored = s;
  place = tt;
  paid = omega arith;
}
testing-Moved fails (some k) n s = record {
  grows = unchanged _;
  stored = s;
  place = refl;
  paid = omega arith;
}

IsStored-more : (o : Option ℕ) (n : ℕ) → IsStored o n → IsStored o (n + 1)
IsStored-more none n s = tt
IsStored-more (some k) n s = omega arith

move-Moved :
    (fails : Bool) (g : Global) (p : Place)
    → IsStored g.agent g.built
    → IsPlace g p
    → Moved g p (move fails g p)
unfolding move
move-Moved fails g testing s h = testing-Moved fails g.agent g.built s
move-Moved true g constructing s h = record {
  grows = unchanged g;
  stored = s;
  place = tt;
  paid = omega arith;
}
move-Moved false g constructing s h = record {
  grows = record { more = omega arith; stays = λ h'. h' };
  stored = IsStored-more g.agent g.built s;
  place = omega arith;
  paid = omega arith;
}
move-Moved fails g (storing k) s h = record {
  grows = record { more = omega arith; stays = λ h'. refl };
  stored = h;
  place = refl;
  paid = omega arith;
}
move-Moved fails g returning s h = record {
  grows = unchanged g;
  stored = s;
  place = returned_some g.agent g.built h s;
  paid = omega arith;
}
move-Moved fails g (returned o) s h = record {
  grows = unchanged g;
  stored = s;
  place = h;
  paid = omega arith;
}
move-Moved fails g raised s h = record {
  grows = unchanged g;
  stored = s;
  place = tt;
  paid = omega arith;
}

-- Every place fits the variable, and the constructions, those to come included, are at most `n`.
record IsSound (n : ℕ) (g : Global) (ps : List Place) : Type 0 where
  stored : IsStored g.agent g.built
  places : All (IsPlace g) ps
  budget : g.built + all_pending ps ≤ n

-- One step keeps this, with the budget of the calls that are left out.
CallStep-Moved :
    {g g' : Global} {ps ps' : List Place}
    → CallStep g ps g' ps'
    → IsStored g.agent g.built
    → All (IsPlace g) ps
    → Grows g g'
      × IsStored g'.agent g'.built
      × All (IsPlace g') ps'
      × (g'.built + all_pending ps' ≤ g.built + all_pending ps)
CallStep-Moved {g} (moves fails p ps) s h =
    let m = move-Moved fails g p s h.0 in
    (m.grows, m.stored, (m.place, Grows-All ps m.grows h.1), omega (arith, m.paid))
CallStep-Moved (skips p step) s h =
    let (w, s', h', b) = CallStep-Moved step s h.1 in
    (w, s', (Grows-IsPlace p w h.0, h'), omega arith)

Reach-IsSound :
    {n : ℕ} {g : Global} {ps : List Place} {g' : Global} {ps' : List Place}
    → Reach g ps g' ps'
    → IsSound n g ps
    → IsSound n g' ps'
Reach-IsSound begun i = i
Reach-IsSound (stepped r step) i =
    let before = Reach-IsSound r i in
    let (w, s, h, b) = CallStep-Moved step before.stored before.places in
    record { stored = s; places = h; budget = omega (arith, before.budget) }

calls-IsSound : (n : ℕ) → IsSound n unset (calls n)
calls-IsSound n = record { stored = tt; places = fresh n; budget = omega (arith, pays n) }
  where
    fresh : (n : ℕ) → All (IsPlace unset) (calls n)
    fresh zero = tt
    fresh (suc n) = (tt, fresh n)

    pays : (n : ℕ) → all_pending (calls n) ≡ n
    pays zero = refl
    pays (suc n) = omega (arith, pays n)

-- However `n` first calls are interleaved and whichever constructions raise, at most `n` agents are
-- constructed, and a call that returned has returned an agent that was constructed, never None.
pub Reach-built :
    (n : ℕ) {g : Global} {ps : List Place}
    → Reach unset (calls n) g ps
    → (g.built ≤ n) × All (IsPlace g) ps
Reach-built n r = let i = Reach-IsSound r (calls-IsSound n) in (omega (arith, i.budget), i.places)

-- A call that stands behind no test that found None, and has returned this agent if it returned one.
abbrev pub IsSettled : ℕ → Place → Type 0
IsSettled k constructing = ⊥
IsSettled k (storing j) = ⊥
IsSettled k (returned o) = o ≡ some k
IsSettled k _ = Unit

move-IsSettled :
    (fails : Bool) (k n : ℕ) (p : Place)
    → IsSettled k p
    → ((move fails (record { agent = some k; built = n }) p).0
        ≡ record { agent = some k; built = n })
      × IsSettled k (move fails (record { agent = some k; built = n }) p).1
unfolding move
move-IsSettled fails k n testing h = (refl, tt)
move-IsSettled fails k n constructing h = absurd h
move-IsSettled fails k n (storing j) h = absurd h
move-IsSettled fails k n returning h = (refl, refl)
move-IsSettled fails k n (returned o) h = (refl, h)
move-IsSettled fails k n raised h = (refl, tt)

CallStep-IsSettled :
    {k n : ℕ} {g g' : Global} {ps ps' : List Place}
    → CallStep g ps g' ps'
    → g ≡ record { agent = some k; built = n }
    → All (IsSettled k) ps
    → (g' ≡ record { agent = some k; built = n }) × All (IsSettled k) ps'
CallStep-IsSettled {k} {n} (moves fails p ps) e h =
    let (same_global, place) = move-IsSettled fails k n p h.0 in
    (
      ap (λ g. (move fails g p).0) e ∙ same_global,
      (subst (λ g. IsSettled k (move fails g p).1) (sym e) place, h.1),
    )
CallStep-IsSettled (skips p step) e h =
    let (e', h') = CallStep-IsSettled step e h.1 in (e', (h.0, h'))

-- Once an agent is stored and no call is constructing one, nothing changes it: every call that returns
-- from then on returns that agent, and no other one is constructed.
pub Reach-IsSettled :
    (k n : ℕ) {ps : List Place} {g' : Global} {ps' : List Place}
    → Reach (record { agent = some k; built = n }) ps g' ps'
    → All (IsSettled k) ps
    → (g' ≡ record { agent = some k; built = n }) × All (IsSettled k) ps'
Reach-IsSettled k n begun h = (refl, h)
Reach-IsSettled k n (stepped r step) h =
    let (e, h') = Reach-IsSettled k n r h in CallStep-IsSettled step e h'
