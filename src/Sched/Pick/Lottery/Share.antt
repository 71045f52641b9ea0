-- ===== src/Sched/Pick/Lottery/Share.antt =====
-- How many of the draws of the lottery elect a process of the queue.
use Prim.Native.Nat.{min}
use demos_os.Base.{
  ℕ, zero, suc, ◌+◌, ◌-◌, ◌<◌, ◌≤◌, ◌≡◌, ◌≢◌, refl, ap, ◌∙◌, true, false, List, [], ◌∷◌, ◌++◌,
  arith, has, has-append, not, ◌&&◌, length, ltb, ◌==◌, if◌then◌else◌,
}
use demos_os.Base.Run.{Run, ok}
use demos_os.Pcb.{Ptr, null, Store, Pcb}
use demos_os.Queue.Chain.{Chain, Chain-suffix}
use demos_os.Sched.Pick.Lottery.{tickets_of, total_tickets, find_winner}

-- All tickets of a list of processes.
unfoldable pub tickets : Store → List Ptr → ℕ
tickets m [] = 0
tickets m (x ∷ xs) = tickets_of (m x) + tickets m xs

-- Every process holds a ticket.
pub tickets_of-pos : (c : Pcb) → 0 < tickets_of c
tickets_of-pos c = ground arith

-- The walk along a queue that is shorter than the fuel adds up its tickets.
pub total_tickets-tickets :
    (fuel : ℕ) (m : Store) (h : Ptr) (xs : List Ptr) (total : ℕ)
    → Chain m h xs
    → length xs < fuel
    → total_tickets fuel m h total ≡ ok (total + tickets m xs)
unfolding total_tickets tickets
total_tickets-tickets zero m h xs total c f = absurd (omega arith)
total_tickets-tickets (suc fuel) m h [] total c f = ground arith
total_tickets-tickets (suc fuel) m h (x ∷ xs) total (e, n, o, c) f =
    let rest =
      total_tickets-tickets fuel m (m x).next_ready xs (total + tickets_of (m x)) c (omega arith) in
    ground arith

-- The holder of a winning ticket in a list, counted from `counted`.
unfoldable pub holder : Store → ℕ → List Ptr → ℕ → Ptr
holder m winner [] counted = null
holder m winner (x ∷ xs) counted =
    if ltb winner (counted + tickets_of (m x))
    then x
    else holder m winner xs (counted + tickets_of (m x))

-- The process before the holder.
unfoldable pub before_holder : Store → ℕ → Ptr → List Ptr → ℕ → Ptr
before_holder m winner previous [] counted = previous
before_holder m winner previous (x ∷ xs) counted =
    if ltb winner (counted + tickets_of (m x))
    then previous
    else before_holder m winner x xs (counted + tickets_of (m x))

-- The walk finds the holder and the process before it.
pub find_winner-holder :
    (fuel : ℕ) (m : Store) (winner previous h : ℕ) (xs : List Ptr) (counted : ℕ)
    → Chain m h xs
    → length xs < fuel
    → find_winner fuel m winner previous h counted
      ≡ ok (before_holder m winner previous xs counted, holder m winner xs counted)
unfolding find_winner holder before_holder
find_winner-holder zero m winner previous h xs counted c f = absurd (omega arith)
find_winner-holder (suc fuel) m winner previous h [] counted c f = ground arith
find_winner-holder (suc fuel) m winner previous h (x ∷ xs) counted (e, n, o, c) f =
    let rest =
      find_winner-holder fuel m winner x (m x).next_ready xs (counted + tickets_of (m x)) c
        (omega arith) in
    ground arith

holder-ne :
    (m : Store) (p : Ptr) (winner : ℕ) (xs : List Ptr) (counted : ℕ)
    → has p xs ≡ false
    → p ≢ null
    → (holder m winner xs counted == p) ≡ false
unfolding holder
holder-ne m p winner [] counted o n = ground arith
holder-ne m p winner (x ∷ xs) counted o n =
    ground (arith, holder-ne m p winner xs (counted + tickets_of (m x)))

-- The tickets of a process are those from the sum of the tickets before it on.
holder-interval :
    (m : Store) (p : Ptr) (winner : ℕ) (xs ys : List Ptr) (counted : ℕ)
    → has p xs ≡ false
    → has p ys ≡ false
    → p ≢ null
    → counted ≤ winner
    → (holder m winner (xs ++ p ∷ ys) counted == p) ≡ (
        not (ltb winner (counted + tickets m xs))
        && ltb winner (counted + tickets m xs + tickets_of (m p)))
unfolding holder tickets
holder-interval m p winner [] ys counted ox oy n le =
    ground (arith, holder-ne m p winner ys (counted + tickets_of (m p)))
holder-interval m p winner (x ∷ xs) ys counted ox oy n le =
    ground (arith, holder-interval m p winner xs ys (counted + tickets_of (m x)))

-- How many of the tickets below `n` have `p` as their holder.
unfoldable pub winning : Store → Ptr → List Ptr → ℕ → ℕ
winning m p xs zero = 0
winning m p xs (suc n) = (if holder m n xs 0 == p then 1 else 0) + winning m p xs n

winning-count :
    (m : Store) (p : Ptr) (xs ys : List Ptr) (n : ℕ)
    → has p xs ≡ false
    → has p ys ≡ false
    → p ≢ null
    → winning m p (xs ++ p ∷ ys) n ≡ min n (tickets m xs + tickets_of (m p)) - min n (tickets m xs)
unfolding winning
winning-count m p xs ys zero ox oy ne = omega arith
winning-count m p xs ys (suc n) ox oy ne = ground (
  arith,
  winning-count m p xs ys n ox oy ne,
  holder-interval m p n xs ys 0 ox oy ne (omega arith),
)

tickets-append : (m : Store) (xs ys : List Ptr) → tickets m (xs ++ ys) ≡ tickets m xs + tickets m ys
unfolding tickets
tickets-append m [] ys = omega arith
tickets-append m (x ∷ xs) ys = omega (arith, tickets-append m xs ys)

-- Nobody stands before itself in a chain.
Chain-apart :
    (m : Store) (h p : Ptr) (xs ys : List Ptr) → Chain m h (xs ++ p ∷ ys) → has p xs ≡ false
Chain-apart m h p [] ys c = refl
Chain-apart m h p (x ∷ xs) ys (e, n, o, c) =
    ground (arith, Chain-apart m (m x).next_ready p xs ys c, has-append x xs (p ∷ ys))

abbrev pub elected : Run (Ptr × Ptr) → Ptr
elected (ok (_, candidate)) = candidate
elected _ = null

-- How many of the draws below `n` elect `p`.
unfoldable pub draws_won : ℕ → Store → (head p : Ptr) → ℕ → ℕ
draws_won fuel m head p zero = 0
draws_won fuel m head p (suc n) =
    (if elected (find_winner fuel m n null head 0) == p then 1 else 0) + draws_won fuel m head p n

draws_won-winning :
    (fuel : ℕ) (m : Store) (h p : Ptr) (xs : List Ptr) (n : ℕ)
    → Chain m h xs
    → length xs < fuel
    → draws_won fuel m h p n ≡ winning m p xs n
unfolding draws_won winning
draws_won-winning fuel m h p xs zero c f = refl
draws_won-winning fuel m h p xs (suc n) c f =
    rw (find_winner-holder fuel m n null h xs 0 c f, draws_won-winning fuel m h p xs n c f)

-- On a queue shorter than the fuel the lottery is proportional: of the numbers below the sum of all tickets, which is what the code
-- draws from, exactly as many elect a process of the queue as it has tickets, and that is at least
-- one.
pub find_winner-share :
    (fuel : ℕ) (m : Store) (h p : Ptr) (xs ys : List Ptr)
    → Chain m h (xs ++ p ∷ ys)
    → length (xs ++ p ∷ ys) < fuel
    → (total : ℕ) × (total_tickets fuel m h 0 ≡ ok total)
      × (draws_won fuel m h p total ≡ tickets_of (m p))
      × (0 < tickets_of (m p))
unfolding tickets
find_winner-share fuel m h p xs ys c f =
    let zs = xs ++ p ∷ ys in
    let ox = Chain-apart m h p xs ys c in
    let (h', (e', ne, oy, _)) = Chain-suffix m h xs (p ∷ ys) c in
    let total = tickets m zs in
    (
      total,
      total_tickets-tickets fuel m h zs 0 c f ∙ ap ok (omega arith),
      draws_won-winning fuel m h p zs total c f
          ∙ omega (arith, winning-count m p xs ys total ox oy ne, tickets-append m xs (p ∷ ys)),
      tickets_of-pos (m p),
    )

-- A winning ticket below the sum has a holder in the list.
pub holder-has :
    (m : Store) (winner : ℕ) (xs : List Ptr) (counted : ℕ)
    → counted ≤ winner
    → winner < counted + tickets m xs
    → has (holder m winner xs counted) xs ≡ true
unfolding holder tickets
holder-has m winner [] counted le h = absurd (omega arith)
holder-has m winner (x ∷ xs) counted le h =
    ground (arith, holder-has m winner xs (counted + tickets_of (m x)))
