-- ===== src/Netpack/Waiting.antt =====
-- What waits for each id in the chains of lua-netpack.c.
use ddzproject.Prelude.{
  ℕ, ◌≡◌, ◌≢◌, refl, sym, ap, ◌∙◌, Option, none, some, List, [], ◌∷◌, ◌==◌, if◌then◌else◌, ap₂,
  ==_ne, ==_iff,
}
use native.Mathlib.Decide.{ℕ_discrete}
use ddzproject.Netpack.{
  Reading, Uncomplete, Queue, hash_fd, set_chain, keep_first, find_in, find_uncomplete, get_queue,
  save_uncomplete, push_data,
}
use ddzproject.Netpack.Ring.{IsRing, ring, ring_length, push_data-eq, after_push-hash}

-- The readings of the id `g` in a chain, in order.
pub of_id : ℕ → List Uncomplete → List Reading
of_id g [] = []
of_id g (uc ∷ l) = let rest = of_id g l in if uc.id == g then uc.reading ∷ rest else rest

unfoldable pub waiting : Queue → ℕ → List Reading
waiting q g = of_id g (q.hash (hash_fd g))

keep_first-some :
    (uc found : Uncomplete) (o : Option (Uncomplete × List Uncomplete)) (l : List Uncomplete)
    → keep_first uc o ≡ some (found, l)
    → (l' : List Uncomplete) × (o ≡ some (found, l')) × (l ≡ uc ∷ l')
keep_first-some uc found none l e = cc
keep_first-some uc found (some (f, l')) l e = (l', cc, cc)

of_id-here :
    (g : ℕ) (uc : Uncomplete) (l : List Uncomplete)
    → uc.id ≡ g
    → of_id g (uc ∷ l) ≡ uc.reading ∷ of_id g l
unfolding of_id
of_id-here g uc l e = rw ((==_iff uc.id g).1 e) refl

of_id-other :
    (g : ℕ) (uc : Uncomplete) (l : List Uncomplete) → uc.id ≢ g → of_id g (uc ∷ l) ≡ of_id g l
unfolding of_id
of_id-other g uc l ne = rw (==_ne uc.id g ne) refl

find_in-here :
    (g : ℕ) (uc : Uncomplete) (l : List Uncomplete) → uc.id ≡ g → find_in g (uc ∷ l) ≡ some (uc, l)
unfolding find_in
find_in-here g uc l e = rw ((==_iff uc.id g).1 e) refl

find_in-other :
    (g : ℕ) (uc : Uncomplete) (l : List Uncomplete)
    → uc.id ≢ g
    → find_in g (uc ∷ l) ≡ keep_first uc (find_in g l)
unfolding find_in
find_in-other g uc l ne = rw (==_ne uc.id g ne) refl

keep_first-none :
    (uc : Uncomplete) (o : Option (Uncomplete × List Uncomplete))
    → keep_first uc o ≡ none
    → o ≡ none
keep_first-none uc none e = refl
keep_first-none uc (some p) e = cc

abbrev Found : Type 0
Found = Option (Uncomplete × List Uncomplete)

some-pair :
    (x uc : Uncomplete) (l l' : List Uncomplete)
    → ◌≡◌ {A = Found} (some (x, l)) (some (uc, l'))
    → (x ≡ uc) × (l ≡ l')
some-pair x uc l l' e = (cc, cc)

find_in-none : (fd : ℕ) (l : List Uncomplete) → find_in fd l ≡ none → of_id fd l ≡ []
find_in-none fd [] e = unfold of_id in refl
find_in-none fd (uc ∷ l) e = elim (ℕ_discrete uc.id fd) [
  | yes h ↦ absurd (some_ne (sym (find_in-here fd uc l h) ∙ e))
  | no ne ↦
      of_id-other fd uc l ne
      ∙ find_in-none fd l (keep_first-none uc (find_in fd l) (sym (find_in-other fd uc l ne) ∙ e))
]
  where
    some_ne : ¬ (◌≡◌ {A = Found} (some (uc, l)) none)
    some_ne h = cc

same_head :
    (g : ℕ) (x : Uncomplete) (m l : List Uncomplete)
    → of_id g m ≡ of_id g l
    → of_id g (x ∷ m) ≡ of_id g (x ∷ l)
unfolding of_id
same_head g x m l e = rw e refl

-- The chain without the first of `fd`.
find_in-some :
    (fd : ℕ) (l l' : List Uncomplete) (uc : Uncomplete)
    → find_in fd l ≡ some (uc, l')
    → (of_id fd l ≡ uc.reading ∷ of_id fd l') × ((g : ℕ) → g ≢ fd → of_id g l' ≡ of_id g l)
find_in-some fd [] l' uc e = unfold find_in in absurd (unfold find_in in cc)
find_in-some fd (x ∷ l) l' uc e = elim (ℕ_discrete x.id fd) [
  | yes h ↦
      let (x_uc, l_l') = some-pair x uc l l' (sym (find_in-here fd x l h) ∙ e) in
      (
        of_id-here fd x l h ∙ ap₂ (λ u m. u.reading ∷ of_id fd m) x_uc l_l',
        λ g ne. ap (of_id g) (sym l_l') ∙ sym (of_id-other g x l (λ k. ne (sym k ∙ h))),
      )
  | no ne ↦
      let (m, found, shape) =
        keep_first-some x uc (find_in fd l) l' (sym (find_in-other fd x l ne) ∙ e) in
      let (here, others) = find_in-some fd l m uc found in
      (
        of_id-other fd x l ne
            ∙ here
            ∙ ap (λ t. uc.reading ∷ t) (sym (of_id-other fd x m ne))
            ∙ ap (λ t. uc.reading ∷ of_id fd t) (sym shape),
        λ g gne. ap (of_id g) shape ∙ same_head g x m l (others g gne),
      )
]

waiting-same :
    (q : Queue) (fd : ℕ) (l : List Uncomplete)
    → waiting (set_chain q (hash_fd fd) l) fd ≡ of_id fd l
unfolding waiting
waiting-same q fd l = rw ((==_iff (hash_fd fd) (hash_fd fd)).1 refl) refl

waiting-other :
    (q : Queue) (h g : ℕ) (l : List Uncomplete)
    → of_id g l ≡ of_id g (q.hash h)
    → waiting (set_chain q h l) g ≡ waiting q g
unfolding waiting
waiting-other q h g l e = elim (ℕ_discrete (hash_fd g) h) [
  | yes p ↦ rw ((==_iff (hash_fd g) h).1 p) (e ∙ ap (λ k. of_id g (q.hash k)) (sym p))
  | no ne ↦ rw (==_ne (hash_fd g) h ne) refl
]

-- What `find_uncomplete` gives back: nothing waits and the queue is as it was, or the first that
-- waits for `fd` is taken, and nothing else changes.
unfoldable pub Takes : Option Queue → ℕ → Option Uncomplete → Option Queue → Type 0
Takes S fd none S' = (S' ≡ S) × (waiting (get_queue S) fd ≡ [])
Takes S fd (some uc) S' =
    (waiting (get_queue S) fd ≡ uc.reading ∷ waiting (get_queue S') fd)
    × ((g : ℕ) → g ≢ fd → waiting (get_queue S') g ≡ waiting (get_queue S) g)
    × (ring (get_queue S') ≡ ring (get_queue S))
    × (IsRing (get_queue S) → IsRing (get_queue S'))

pub find_uncomplete-Takes :
    (S : Option Queue) (fd : ℕ) → Takes S fd (find_uncomplete S fd).0 (find_uncomplete S fd).1
find_uncomplete-Takes none fd = unfold find_uncomplete Takes waiting get_queue of_id in (refl, refl)
find_uncomplete-Takes (some q) fd = go (find_in fd (q.hash (hash_fd fd))) refl
  where
    go :
        (o : Found)
        → find_in fd (q.hash (hash_fd fd)) ≡ o
        → Takes (some q) fd (find_uncomplete (some q) fd).0 (find_uncomplete (some q) fd).1
    go none e =
        unfold find_uncomplete Takes get_queue waiting in
        rw (find_uncomplete, e, Takes) (refl, find_in-none fd (q.hash (hash_fd fd)) e)
    go (some (uc, l)) e =
        let (here, others) = find_in-some fd (q.hash (hash_fd fd)) l uc e in
        unfold find_uncomplete Takes get_queue ring in
        rw (find_uncomplete, e, Takes)
          (
            unfold waiting in here ∙ ap (λ t. uc.reading ∷ t) (sym (waiting-same q fd l)),
            (λ g ne. waiting-other q (hash_fd fd) g l (others g ne)),
            unfold ring_length in refl,
            λ v. record { storage = v.storage; head_in = v.head_in; tail_in = v.tail_in },
          )

pub waiting-save :
    (S : Option Queue) (fd : ℕ) (r : Reading)
    → waiting (get_queue (save_uncomplete S fd r)) fd ≡ r ∷ waiting (get_queue S) fd
unfolding save_uncomplete
waiting-save S fd r =
    unfold get_queue in waiting-same (get_queue S) fd _ ∙ unfold waiting in of_id-here fd _ _ refl

pub waiting-save_other :
    (S : Option Queue) (fd : ℕ) (r : Reading) (g : ℕ)
    → g ≢ fd
    → waiting (get_queue (save_uncomplete S fd r)) g ≡ waiting (get_queue S) g
unfolding save_uncomplete
waiting-save_other S fd r g ne =
    unfold get_queue in
    waiting-other (get_queue S) (hash_fd fd) g _ (of_id-other g _ _ (λ e. ne (sym e)))

pub ring-save :
    (S : Option Queue) (fd : ℕ) (r : Reading)
    → ring (get_queue (save_uncomplete S fd r)) ≡ ring (get_queue S)
unfolding save_uncomplete ring
ring-save S fd r = unfold get_queue ring_length in refl

pub save-IsRing :
    (S : Option Queue) (fd : ℕ) (r : Reading)
    → IsRing (get_queue S)
    → IsRing (get_queue (save_uncomplete S fd r))
unfolding save_uncomplete
save-IsRing S fd r v =
    unfold get_queue in record { storage = v.storage; head_in = v.head_in; tail_in = v.tail_in }

pub waiting-push :
    (S : Option Queue) (fd : ℕ) (b : List ℕ) (n g : ℕ)
    → waiting (get_queue (push_data S fd b n)) g ≡ waiting (get_queue S) g
unfolding waiting
waiting-push S fd b n g =
    ap (λ T. of_id g ((get_queue T).hash (hash_fd g))) (push_data-eq S fd b n)
    ∙ unfold get_queue in
      ap (λ (f : ℕ → List Uncomplete). of_id g (f (hash_fd g))) (after_push-hash (get_queue S) _)

pub fresh-waiting : (g : ℕ) → waiting (get_queue none) g ≡ []
unfolding waiting get_queue of_id
fresh-waiting g = refl
