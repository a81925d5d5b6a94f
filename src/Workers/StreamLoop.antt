-- ===== src/Workers/StreamLoop.antt =====
-- infrastructure/bus/redis_streams.py: `ensure_group` and the loop of `_consume`, over what Redis keeps
-- for the consumer group. Redis is the interface `Group`; handling is what StreamConsumer models.
use leaf_flow_chat.Prelude.{
  ℕ, zero, suc, ◌≡◌, ◌≤◌, ◌<◌, refl, sym, subst, Option, none, some, List, [], ◌∷◌, ◌++◌, String,
  arith, All, count_p, count_p-append, leb, ◌==◌, Bool-cases, inl, inr,
}
use leaf_flow_chat.Errors.{Result}
use leaf_flow_chat.Workers.LeafEventsConsumer.{Fields}
use leaf_flow_chat.Workers.StreamConsumer.{Entry, consume}

-- Every entry's identifier lies after the first bound and up to the second.
abbrev pub IsBetween : ℕ → ℕ → List Entry → Type 0
IsBetween a b = All (λ e. (a < e.0) × (e.0 ≤ b))

-- the number of entries with an identifier
abbrev pub times : ℕ → List Entry → ℕ
times i = count_p (λ e. e.0 == i)

pub record Group : Type 1 where
  -- what Redis keeps for the group, and the last entry that it has delivered
  pub State : Type 0
  pub delivered : State → ℕ
  -- XREADGROUP with ">" and a COUNT; without a value where it raises
  pub xreadgroup : ℕ → State → Option (List Entry) × State
  -- XACK
  pub xack : List ℕ → State → State
  -- It returns each new entry once, after those that were delivered before.
  pub xreadgroup_advances : (n : ℕ) (g : State) → delivered g ≤ delivered (xreadgroup n g).1
  pub xreadgroup_new :
      (n : ℕ) (g : State) (es : List Entry)
      → (xreadgroup n g).0 ≡ some es
      → IsBetween (delivered g) (delivered (xreadgroup n g).1) es × ((i : ℕ) → times i es ≤ 1)
  pub delivered-xack : (ids : List ℕ) (g : State) → delivered (xack ids g) ≡ delivered g

-- what XGROUP CREATE answers
pub data Creation : Type 0 where
  created busygroup : Creation
  response_error : String → Creation

-- `ensure_group`: an error where it raises
unfoldable pub ensure_group : Creation → Option String
ensure_group created = none
ensure_group busygroup = none
ensure_group (response_error message) = some message

module _ ⦃group : Group⦄ (batch_size : ℕ) {S : Type 0}
    (callback : String → Fields → S → Result (Unit {0}) × S) where
  -- what a process keeps
  abbrev pub Reader : Type 0
  Reader = group.State × S

  -- the entries of a round, or none where the round raised or read nothing
  abbrev pub read_entries : Option (List Entry) → List Entry
  read_entries none = []
  read_entries (some entries) = entries

  -- one round of the loop: the entries that it goes through, and what is left
  unfoldable pub round : Reader → List Entry × Reader
  round (g, s) =
      let (entries, g') = group.xreadgroup batch_size g in
      let (ids, s') = consume callback (read_entries entries) s in
      (read_entries entries, (group.xack ids g', s'))

  -- so many rounds
  unfoldable pub rounds : ℕ → Reader → List Entry × Reader
  rounds zero r = ([], r)
  rounds (suc n) r =
      let (handled, r') = round r in let (more, end) = rounds n r' in (handled ++ more, end)

IsBetween-append :
    (a b c : ℕ) (xs ys : List Entry)
    → a ≤ b
    → b ≤ c
    → IsBetween a b xs
    → IsBetween b c ys
    → IsBetween a c (xs ++ ys)
IsBetween-append a b c [] [] h k hx hy = tt
IsBetween-append a b c [] (y ∷ ys) h k hx hy =
    ((omega (arith, h, hy.0.0), hy.0.1), IsBetween-append a b c [] ys h k tt hy.1)
IsBetween-append a b c (x ∷ xs) ys h k hx hy =
    ((hx.0.0, omega (arith, k, hx.0.1)), IsBetween-append a b c xs ys h k hx.1 hy)

pub times-below : (a b i : ℕ) (es : List Entry) → IsBetween a b es → i ≤ a → times i es ≡ 0
times-below a b i [] h k = refl
times-below a b i (e ∷ es) h k = ground (arith, times-below a b i es h.1 k, h.0.0)

times-above : (a b i : ℕ) (es : List Entry) → IsBetween a b es → b < i → times i es ≡ 0
times-above a b i [] h k = refl
times-above a b i (e ∷ es) h k = ground (arith, times-above a b i es h.1 k, h.0.1)

times-append :
    (a b c i : ℕ) (xs ys : List Entry)
    → IsBetween a b xs
    → IsBetween b c ys
    → times i xs ≤ 1
    → times i ys ≤ 1
    → times i (xs ++ ys) ≤ 1
times-append a b c i xs ys hx hy kx ky = elim (Bool-cases (leb i b)) [
  | inl e ↦
      omega (
        arith,
        count_p-append (λ e. e.0 == i) xs ys,
        kx,
        times-below b c i ys hy (ground (arith, e)),
      )
  | inr e ↦
      omega (
        arith,
        count_p-append (λ e. e.0 == i) xs ys,
        ky,
        times-above a b i xs hx (ground (arith, e)),
      )
]

module _ ⦃group : Group⦄ (batch_size : ℕ) {S : Type 0}
    (callback : String → Fields → S → Result (Unit {0}) × S) where
  abbrev pub IsNew : ℕ → ℕ → List Entry → Type 0
  IsNew a b es = (a ≤ b) × IsBetween a b es × ((i : ℕ) → times i es ≤ 1)

  pub IsNew-append :
      (a b c : ℕ) (xs ys : List Entry) → IsNew a b xs → IsNew b c ys → IsNew a c (xs ++ ys)
  IsNew-append a b c xs ys (le, new, once) (le', new', once') = (
    omega (arith, le, le'),
    IsBetween-append a b c xs ys le le' new new',
    λ i. times-append a b c i xs ys new new' (once i) (once' i),
  )

  pub read_entries-IsNew :
      (g : group.State) (o : Option (List Entry))
      → (group.xreadgroup batch_size g).0 ≡ o
      → let es = read_entries batch_size callback o in
        IsBetween (group.delivered g) (group.delivered (group.xreadgroup batch_size g).1) es
        × ((i : ℕ) → times i es ≤ 1)
  read_entries-IsNew g none h = (tt, λ i. omega arith)
  read_entries-IsNew g (some es) h = group.xreadgroup_new batch_size g es h

  round-IsNew :
      (g : group.State) (s : S)
      → let (handled, r) = round batch_size callback (g, s) in
        IsNew (group.delivered g) (group.delivered r.0) handled
  unfolding round
  round-IsNew g s =
      let (entries, g') = group.xreadgroup batch_size g in
      let (ids, s') = consume callback (read_entries batch_size callback entries) s in
      let (new, once) = read_entries-IsNew g entries refl in
      subst (λ d. IsNew (group.delivered g) d (read_entries batch_size callback entries))
        (sym (group.delivered-xack ids g')) (group.xreadgroup_advances batch_size g, new, once)

  pub rounds-IsNew :
      (n : ℕ) (g : group.State) (s : S)
      → let (handled, end) = rounds batch_size callback n (g, s) in
        IsNew (group.delivered g) (group.delivered end.0) handled
  unfolding rounds
  rounds-IsNew zero g s = (omega arith, tt, λ i. omega arith)
  rounds-IsNew (suc n) g s =
      let r = (round batch_size callback (g, s)).1 in
      IsNew-append _ _ _ _ _ (round-IsNew g s) (rounds-IsNew n r.0 r.1)

  -- Over any number of rounds no entry comes twice, those with failed handling included, and
  -- every entry is newer than those that were delivered before.
  pub rounds_handle_once :
      (n : ℕ) (g : group.State) (s : S)
      → let handled = (rounds batch_size callback n (g, s)).0 in
        ((i : ℕ) → times i handled ≤ 1) × ((i : ℕ) → i ≤ group.delivered g → times i handled ≡ 0)
  rounds_handle_once n g s =
      let (le, new, once) = rounds-IsNew n g s in (once, λ i h. times-below _ _ i _ new h)
