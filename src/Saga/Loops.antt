-- ===== src/Saga/Loops.antt =====
-- The three loops of the saga over reservations: the books through the reservation of all lines,
-- through a release of all holds and through a commit of all holds.
use supply_chain_mangement_s.Common.{
  ℕ, ℤ, pos, ◌+ℤ◌, ◌<ℤ◌, ◌≤ℤ◌, ◌⊎◌, inl, inr, String, ◌≡◌, refl, sym, ap, ◌∙◌, Option, List, [],
  ◌∷◌, ◌++◌, map, map-append, arith, ◌==◌, if◌then◌else◌, int_laws,
}
use supply_chain_mangement_s.Exec.{ok}
use supply_chain_mangement_s.Exec.Returns.{Returns, Returns-bind, Returns-map}
use supply_chain_mangement_s.Types.{OrderLine, Reservation, accepted, rejected, Reason}
use supply_chain_mangement_s.Keys.{stock_key}
use supply_chain_mangement_s.Redis.Laws.{level}
use supply_chain_mangement_s.World.{World}
use supply_chain_mangement_s.Inventory
use supply_chain_mangement_s.Inventory.Outcome.{SameOutside, SameOutside-trans}
use supply_chain_mangement_s.Inventory.Books.{Hold, held_qty, held_qty-append, IsWindow, Books}
use supply_chain_mangement_s.Inventory.Steps.{
  new_hold, AfterReserve, reserve-Books, release-Books, commit-Books, spent,
}
use supply_chain_mangement_s.Saga.{
  Reserved, all_reserved, refused_at, reserve_lines, release_all, commit_all, reservation_of,
}

abbrev pub reservations_of : List Hold → List Reservation
reservations_of = map (λ h. h.res)

-- What a list of lines asks for from one stock key.
unfoldable pub demand : String → List OrderLine → ℤ
demand k [] = pos 0
demand k (l ∷ ls) = (if stock_key l.warehouse_id l.sku == k then l.qty else pos 0) +ℤ demand k ls

pub SameOutside-refl : (w : World) → SameOutside w w
SameOutside-refl w = ground arith

-- The loop stops at a line that asks for nothing, or for more than the lines before it have left.
abbrev pub StopsAt : (String → ℤ) → List Hold → OrderLine → List OrderLine → Type 0
StopsAt total hs line lines =
    (taken rest : List OrderLine) × (lines ≡ taken ++ line ∷ rest)
    × ((line.qty ≤ℤ pos 0)
        ⊎ (total (stock_key line.warehouse_id line.sku)
            <ℤ held_qty (stock_key line.warehouse_id line.sku) hs
              +ℤ demand (stock_key line.warehouse_id line.sku) taken
              +ℤ line.qty))

-- The state after the loop of step 1: the books hold a reservation for each line that was taken.
abbrev pub AfterLoop :
    ℕ → (String → ℤ) → List Hold → List OrderLine → World → Reserved → World → Type 0
AfterLoop start total hs lines w (all_reserved rs) w' =
    (hs' : List Hold) × (rs ≡ reservations_of hs')
    × Books start total hs' w'
    × SameOutside w w'
    × ((k : String) → held_qty k hs' ≡ held_qty k hs +ℤ demand k lines)
AfterLoop start total hs lines w (refused_at line rs) w' =
    (hs' : List Hold) × (rs ≡ reservations_of hs')
    × Books start total hs' w'
    × SameOutside w w'
    × StopsAt total hs line lines

module _ (start : ℕ) (total : String → ℤ) where
  -- The rest of the loop after the first line, for any books.
  abbrev RestOfLoop : List OrderLine → Type 0
  RestOfLoop ls =
      (hs : List Hold) (w : World)
      → IsWindow start w.env
      → Books start total hs w
      → Returns (reserve_lines ls (reservations_of hs)) (AfterLoop start total hs ls w) w

  add_taken :
      (l : OrderLine) (ls : List OrderLine) (hs : List Hold) (id : String) (line : OrderLine)
      → StopsAt total (hs ++ new_hold l.warehouse_id l.sku id l.qty ∷ []) line ls
      → StopsAt total hs line (l ∷ ls)
  unfolding demand
  add_taken l ls hs id line (taken, rest, split, inl none_asked) =
      (l ∷ taken, rest, ap (λ t. l ∷ t) split, inl none_asked)
  add_taken l ls hs id line (taken, rest, split, inr short) =
      let k = stock_key line.warehouse_id line.sku in
      let more = held_qty-append k hs (new_hold l.warehouse_id l.sku id l.qty) in
      (l ∷ taken, rest, ap (λ t. l ∷ t) split, inr (grind (int_laws, more, short)))

  -- What the loop does after the first line has been taken adds up with that line.
  add_first :
      (l : OrderLine) (ls : List OrderLine) (hs : List Hold) (id : String) (w w' w'' : World)
      (r : Reserved)
      → SameOutside w w'
      → AfterLoop start total (hs ++ new_hold l.warehouse_id l.sku id l.qty ∷ []) ls w' r w''
      → AfterLoop start total hs (l ∷ ls) w r w''
  unfolding demand
  add_first l ls hs id w w' w'' (all_reserved rs) same (hs', eq, books, same', sums) = (
    hs',
    eq,
    books,
    SameOutside-trans same same',
    λ k.
        rw (sums k, held_qty-append k hs (new_hold l.warehouse_id l.sku id l.qty)) (omega int_laws),
  )
  add_first l ls hs id w w' w'' (refused_at line rs) same (hs', eq, books, same', stop) =
      (hs', eq, books, SameOutside-trans same same', add_taken l ls hs id line stop)

  stops_here :
      (l : OrderLine) (ls : List OrderLine) (hs : List Hold) (w : World)
      → Books start total hs w
      → (l.qty ≤ℤ pos 0) ⊎ (level (stock_key l.warehouse_id l.sku) w.redis <ℤ l.qty)
      → StopsAt total hs l (l ∷ ls)
  unfolding demand
  stops_here l ls hs w books (inl none_asked) = ([], ls, refl, inl none_asked)
  stops_here l ls hs w books (inr short) =
      ([], ls, refl, inr (grind (int_laws, short, books.balance l.warehouse_id l.sku)))

  line_refused :
      (l : OrderLine) (ls : List OrderLine) (held : List Reservation) (w w' : World) (why : Reason)
      (left : Option ℤ)
      → Inventory.reserve l.warehouse_id l.sku l.qty w ≡ (ok (rejected why left), w')
      → reserve_lines (l ∷ ls) held w ≡ (ok (refused_at l held), w')
  unfolding reserve_lines
  line_refused l ls held w w' why left e = ground (arith, e)

  line_accepted :
      (l : OrderLine) (ls : List OrderLine) (held : List Reservation) (w w' : World) (id : String)
      (left : ℤ)
      → Inventory.reserve l.warehouse_id l.sku l.qty w ≡ (ok (accepted id left), w')
      → reserve_lines (l ∷ ls) held w ≡ reserve_lines ls (held ++ reservation_of l id ∷ []) w'
  unfolding reserve_lines
  line_accepted l ls held w w' id left e = ground (arith, e)

  reserve_first :
      (l : OrderLine) (ls : List OrderLine) (hs : List Hold) (w : World)
      → IsWindow start w.env
      → Books start total hs w
      → RestOfLoop ls
      → Returns
          (Inventory.reserve l.warehouse_id l.sku l.qty)
          (AfterReserve start total hs l.warehouse_id l.sku l.qty w)
          w
      → Returns
          (reserve_lines (l ∷ ls) (reservations_of hs))
          (AfterLoop start total hs (l ∷ ls) w)
          w
  reserve_first l ls hs w window books rest (rejected why left, w', e, p) = (
    refused_at l (reservations_of hs),
    w',
    line_refused l ls (reservations_of hs) w w' why left e,
    (hs, refl, p.0, p.1, stops_here l ls hs w books p.2),
  )
  reserve_first l ls hs w window books rest (accepted id left, w', e, p) =
      let new = new_hold l.warehouse_id l.sku id l.qty in
      let (r, w'', e', q) = rest (hs ++ new ∷ []) w' (rw p.1.env window) p.0 in
      let regroup =
        ap (λ rs. reserve_lines ls rs w') (sym (map-append (λ (h : Hold). h.res) hs (new ∷ []))) in
      (
        r,
        w'',
        line_accepted l ls (reservations_of hs) w w' id left e ∙ (regroup ∙ e'),
        add_first l ls hs id w w' w'' r p.1 q,
      )

  pub reserve_lines-Books : (lines : List OrderLine) → RestOfLoop lines
  unfolding reserve_lines demand
  reserve_lines-Books [] hs w window books = (
    all_reserved (reservations_of hs),
    w,
    refl,
    (hs, refl, books, SameOutside-refl w, λ k. omega int_laws),
  )
  reserve_lines-Books (l ∷ ls) hs w window books =
      reserve_first l ls hs w window books (reserve_lines-Books ls)
        (reserve-Books start total hs l.warehouse_id l.sku l.qty w window books)

  pub release_all-Books :
      (hs : List Hold) (w : World)
      → IsWindow start w.env
      → Books start total hs w
      → Returns
          (release_all (reservations_of hs))
          (λ _ w'. Books start total [] w' × SameOutside w w')
          w
  unfolding release_all
  release_all-Books [] w window books = (tt, w, refl, (books, SameOutside-refl w))
  release_all-Books (h ∷ hs) w window books =
      Returns-bind (Inventory.release h.res.warehouse_id h.res.sku h.res.reservation_id)
        (λ _. release_all (reservations_of hs)) w (release-Books start total h hs w window books)
        (λ status w' p.
          Returns-map (release_all (reservations_of hs)) w'
            (release_all-Books hs w' (rw p.2.env window) p.1)
            (λ _ w'' q. (q.0, SameOutside-trans p.2 q.1)))

-- The stock with the quantities of all holds gone for good.
abbrev pub all_spent : List Hold → (String → ℤ) → String → ℤ
all_spent [] total = total
all_spent (h ∷ hs) total = all_spent hs (spent h total)

pub all_spent-held_qty :
    (hs : List Hold) (total : String → ℤ) (k : String)
    → all_spent hs total k +ℤ held_qty k hs ≡ total k
unfolding held_qty
all_spent-held_qty [] total k = omega int_laws
all_spent-held_qty (h ∷ hs) total k =
    let rest = all_spent-held_qty hs (spent h total) k in grind (int_laws, rest)

module _ (start : ℕ) where
  pub commit_all-Books :
      (total : String → ℤ) (hs : List Hold) (w : World)
      → IsWindow start w.env
      → Books start total hs w
      → Returns
          (commit_all (reservations_of hs))
          (λ _ w'. Books start (all_spent hs total) [] w' × SameOutside w w')
          w
  unfolding commit_all
  commit_all-Books total [] w window books = (tt, w, refl, (books, SameOutside-refl w))
  commit_all-Books total (h ∷ hs) w window books =
      Returns-bind (Inventory.commit h.res.warehouse_id h.res.sku h.res.reservation_id)
        (λ _. commit_all (reservations_of hs)) w (commit-Books start total h hs w window books)
        (λ status w' p.
          Returns-map (commit_all (reservations_of hs)) w'
            (commit_all-Books (spent h total) hs w' (rw p.2.env window) p.1)
            (λ _ w'' q. (q.0, SameOutside-trans p.2 q.1)))
