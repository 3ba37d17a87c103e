-- ===== src/Handle/Retire.antt =====
-- `skynet_handle_retire`, on the slots and on the names.
use ddzproject.Prelude.{
  ℕ, ◌%◌, ◌^◌, ◌<◌, ◌≡◌, ◌≢◌, refl, sym, ap, subst, ◌∙◌, inl, inr, Option, none, some, List, [],
  ◌∷◌, get_or, set, arith, Option-cases, ==_refl, ==_ne,
}
use ddzproject.Prelude.Members.{Has}
use native.Mathlib.Nat.{mod-lt, one-le-pow}
use native.Mathlib.Decide.{ℕ_discrete}
use ddzproject.Handle.{Context, HandleName, Storage, grab, retire, release_at, remove_names}
use ddzproject.Handle.Slots.{IsSlots, hash_of_lem, none-some, some_eq}
use ddzproject.Handle.Free.{some-none}
use ddzproject.Handle.Owner.{Owns, owner, grab-Owns, grab-none, grab_same}
use ddzproject.Handle.Put.{IsStorage, set-IsSlots, Owns-set, Owns-unset, Owns-at}

pub remove_names-drops :
    (h : ℕ) (m : HandleName) (ns : List HandleName)
    → m.handle ≡ h
    → remove_names h (m ∷ ns) ≡ remove_names h ns
unfolding remove_names
remove_names-drops h m ns e = rw (e, ==_refl h) refl

pub remove_names-skips :
    (h : ℕ) (m : HandleName) (ns : List HandleName)
    → m.handle ≢ h
    → remove_names h (m ∷ ns) ≡ m ∷ remove_names h ns
unfolding remove_names
remove_names-skips h m ns ne = rw (==_ne m.handle h ne) refl

remove_names-keeps :
    (h : ℕ) (names : List HandleName) (n : HandleName)
    → Has n names
    → n.handle ≢ h
    → Has n (remove_names h names)
remove_names-keeps h [] n has ne = absurd has
remove_names-keeps h (m ∷ ns) n has ne = elim (ℕ_discrete m.handle h) [
  | yes e ↦
      subst (λ xs. Has n xs) (sym (remove_names-drops h m ns e))
        (elim has [
          | inl same ↦ absurd (ne (ap (λ (x : HandleName). x.handle) same ∙ e))
          | inr later ↦ remove_names-keeps h ns n later ne
        ])
  | no away ↦
      subst (λ xs. Has n xs) (sym (remove_names-skips h m ns away))
        (elim has [ inl same ↦ inl same | inr later ↦ inr (remove_names-keeps h ns n later ne) ])
]

remove_names-Has :
    (h : ℕ) (names : List HandleName) (n : HandleName)
    → Has n (remove_names h names)
    → Has n names × (n.handle ≢ h)
remove_names-Has h [] n has = absurd (unfold remove_names in has)
remove_names-Has h (m ∷ ns) n has = elim (ℕ_discrete m.handle h) [
  | yes e ↦
      let (there, ne) =
        remove_names-Has h ns n (subst (λ xs. Has n xs) (remove_names-drops h m ns e) has) in
      (inr there, ne)
  | no away ↦ elim (subst (λ xs. Has n xs) (remove_names-skips h m ns away) has) [
    | inl same ↦ (inl same, λ q. away (ap (λ (x : HandleName). x.handle) (sym same) ∙ q))
    | inr later ↦ let (there, ne) = remove_names-Has h ns n later in (inr there, ne)
  ]
]

-- What a caller of `retire` can tell.
pub record Retired (s : Storage) (h : ℕ) (answer : Option ℕ) (t : Storage) : Type 0 where
  pub stands : IsStorage t
  pub released : answer ≡ grab s h
  pub gone : grab t h ≡ none
  pub others : (g : ℕ) → g ≢ h → grab t g ≡ grab s g
  pub kept_names : (n : HandleName) → Has n s.names → n.handle ≢ h → Has n t.names
  pub left_names :
      (n : HandleName) → Has n t.names → Has n s.names × (grab s h ≢ none → n.handle ≢ h)
  pub untouched : grab s h ≡ none → t ≡ s

module _ (s : Storage) (h : ℕ) (ok : IsStorage s) where
  abbrev k : ℕ
  k = ok.power

  abbrev emptied : Storage
  emptied = record s { slot = set s.slot (h % 2 ^ k) none; names = remove_names h s.names }

  slot-lt : h % 2 ^ k < 2 ^ k
  slot-lt = mod-lt h {m = 2 ^ k} (one-le-pow k 2 (omega arith))

  at :
      (o : Option Context)
      → get_or s.slot (h % 2 ^ k) none ≡ o
      → retire s h ≡ release_at s h (h % 2 ^ k) o
  unfolding retire
  at o e =
      ap (λ x. release_at s h x (get_or s.slot x none)) (hash_of_lem s.slot k h ok.slots.size)
      ∙ ap (λ x. release_at s h (h % 2 ^ k) x) e

  pub retire-Owns : (c : Context) → Owns s.slot k h c → retire s h ≡ (some c.address, emptied)
  unfolding release_at
  retire-Owns c o = at (some c) o.stored ∙ rw (o.handle, ==_refl h) refl

  pub retire-none : ((c : Context) → ¬ Owns s.slot k h c) → retire s h ≡ (none, s)
  unfolding release_at
  retire-none no_one = elim (Option-cases (get_or s.slot (h % 2 ^ k) none)) [
    | inl e ↦ at none e
    | inr (c, e) ↦ at (some c) e ∙ other c (λ q. no_one c (record { stored = e; handle = q }))
  ]
    where
      other : (c : Context) → c.handle ≢ h → release_at s h (h % 2 ^ k) (some c) ≡ (none, s)
      other c ne = rw (==_ne c.handle h ne) refl

  retired : (c : Context) → Owns s.slot k h c → Retired s h (some c.address) emptied
  retired c o = record {
    stands = record { power = k; slots = stored; number = ok.number; harbor = ok.harbor };
    released = sym (grab-Owns s k h ok.slots c o);
    gone = grab-none emptied k h stored (λ d w. none-some d (unowned h d refl w));
    others = λ g ne. grab_same s emptied k k g ok.slots stored (there g ne) (λ d w.
        Owns-unset s.slot k (h % 2 ^ k) ok.slots slot-lt none g d
          (λ e. none-some d (unowned g d e w)) w);
    kept_names = remove_names-keeps h s.names;
    left_names =
        λ n has. let (there, ne) = remove_names-Has h s.names n has in (there, λ given. ne);
    untouched = λ none_there.
        absurd (some-none c.address (sym (grab-Owns s k h ok.slots c o) ∙ none_there));
  }
    where
      stored : IsSlots emptied.slot k
      stored =
          set-IsSlots s.slot k (h % 2 ^ k) ok.slots slot-lt none (λ d e. absurd (none-some d e))

      unowned :
          (g : ℕ) (d : Context)
          → g % 2 ^ k ≡ h % 2 ^ k
          → Owns emptied.slot k g d
          → ◌≡◌ {A = Option Context} none (some d)
      unowned g d e w = Owns-at s.slot k (h % 2 ^ k) ok.slots slot-lt none g d e w

      there : (g : ℕ) → g ≢ h → (d : Context) → Owns s.slot k g d → Owns emptied.slot k g d
      there g ne d w =
          Owns-set s.slot k (h % 2 ^ k) ok.slots slot-lt none g d
            (λ e. ne (
              sym w.handle
              ∙ ap (λ (x : Context). x.handle)
                  (some_eq d c (sym w.stored ∙ ap (λ x. get_or s.slot x none) e ∙ o.stored))
              ∙ o.handle))
            w

  -- In a well formed storage, `retire` answers the context that the handle had. After it the handle has
  -- none, every other handle has the context that it had, the names of other handles are still there,
  -- no name is new, and the names of the handle are gone if it had a context; if it had none, nothing
  -- changes. The storage is well formed after it.
  pub retire-Retired : Retired s h (retire s h).0 (retire s h).1
  retire-Retired = elim (owner s.slot k h) [
    | inl (c, o) ↦
        subst (λ (r : Option ℕ × Storage). Retired s h r.0 r.1) (sym (retire-Owns c o))
          (retired c o)
    | inr no_one ↦
        subst (λ (r : Option ℕ × Storage). Retired s h r.0 r.1) (sym (retire-none no_one))
          (record {
            stands = ok;
            released = sym (grab-none s k h ok.slots no_one);
            gone = grab-none s k h ok.slots no_one;
            others = λ g ne. refl;
            kept_names = λ n has ne. has;
            left_names = λ n has. (has, λ given. absurd (given (grab-none s k h ok.slots no_one)));
            untouched = λ e. refl;
          })
  ]
