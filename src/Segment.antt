-- ===== src/Segment.antt =====
-- library/collections/src/tree/segment.rs: the dynamic segment tree with lazy propagation.
-- An optional boxed node is one data type, `Node`, in which `empty` is `None`. A method that works
-- through `&mut` returns the new node. The recursion of `update_rec` and `query_rec` halves the
-- interval; here it runs on fuel, for which `update` and `query` give the width of the domain, one
-- unit of it for each level. A node that is reached with no fuel left is handed back as it is.
pub mod Holds
pub mod Query
pub mod Update
pub mod Refine
mod Tests
use akarin.Base.{
  ℕ, zero, suc, ◌+◌, ◌-◌, ◌/◌, Bool, ◌&&◌, ◌||◌, Option, none, some, ltb, leb, if◌then◌else◌,
}

-- The trait `SegmentState`, with the bound `Default`.
pub record SegmentState {ℓ} (T : Type ℓ) : Type ℓ where
  pub default : T
  pub merge : T → T → T
  pub apply : T → T → ℕ → T

pub data Node {ℓ} (T : Type ℓ) : Type ℓ where
  empty : Node T
  node : T → Option T → Node T → Node T → Node T

pub record SegmentTree {ℓ} (T : Type ℓ) : Type ℓ where
  pub root : Node T
  pub start : ℕ
  pub end : ℕ

pub data SegmentTreeError : Type 0 where
  index_out_of_bounds : SegmentTreeError
  invalid_range : SegmentTreeError

pub data Result {ℓ} (A : Type ℓ) : Type ℓ where
  ok : A → Result A
  err : SegmentTreeError → Result A

-- `l + (r - l) / 2`
abbrev pub middle : ℕ → ℕ → ℕ
middle l r = l + (r - l) / 2

unfoldable pub new {ℓ} : {T : Type ℓ} → ℕ → ℕ → SegmentTree T
new start end = record { root = empty; start = start; end = end }

-- The test of a range with which `update` and `query` begin.
abbrev pub bad_range {ℓ} : {T : Type ℓ} → SegmentTree T → ℕ → ℕ → Bool
bad_range t ql qr = leb qr ql || ltb ql t.start || ltb t.end qr

module _ {ℓ} {T : Type ℓ} ⦃s : SegmentState T⦄ where
  -- `node.as_ref().map(|n| &n.val).cloned().unwrap_or_else(T::default)`
  abbrev pub val_or_default : Node T → T
  val_or_default empty = s.default
  val_or_default (node v lazy left right) = v

  -- The child that a pushed tag leaves: its own children are dropped.
  unfoldable pub tagged : Node T → T → ℕ → Node T
  tagged n tag width = node (s.apply (val_or_default n) tag width) (some tag) empty empty

  unfoldable pub push_down : Node T → ℕ → ℕ → Node T
  unfolding tagged
  push_down empty l r = empty
  push_down (node v none left right) l r = node v none left right
  push_down (node v (some tag) left right) l r =
      node v none (tagged left tag (middle l r - l)) (tagged right tag (r - middle l r))

  unfoldable pub push_up : Node T → Node T
  push_up empty = empty
  push_up (node v lazy left right) =
      node (s.merge (val_or_default left) (val_or_default right)) lazy left right

  -- `if node.left.is_none() { node.left = Some(Node::new(T::default())) }`
  abbrev pub or_new : Node T → Node T
  or_new empty = node s.default none empty empty
  or_new (node v lazy left right) = node v lazy left right

  -- The body of `update_rec` on a node whose interval is not covered, given the recursive call.
  abbrev pub update_children : (Node T → ℕ → ℕ → Node T) → Node T → ℕ → ℕ → ℕ → ℕ → Node T
  update_children rec empty l r ql qr = empty
  update_children rec (node v lazy left right) l r ql qr = push_up (
      node v lazy (if ltb ql (middle l r) then rec (or_new left) l (middle l r) else left)
        (if ltb (middle l r) qr then rec (or_new right) (middle l r) r else right))

  -- `node.val.apply(val, r - l); node.lazy = Some(val.clone())`, without children.
  abbrev pub cover : Node T → T → ℕ → Node T
  cover empty tag width = empty
  cover (node v lazy left right) tag width = node (s.apply v tag width) (some tag) empty empty

  unfoldable pub update_rec : ℕ → Node T → ℕ → ℕ → ℕ → ℕ → T → Node T
  unfolding push_down push_up
  update_rec zero n l r ql qr tag = n
  update_rec (suc fuel) n l r ql qr tag =
      let below =
        update_children (λ m l' r'. update_rec fuel m l' r' ql qr tag) (push_down n l r) l r ql
          qr in
      if leb ql l && leb r qr then cover n tag (r - l) else below

  unfoldable pub update : SegmentTree T → ℕ → ℕ → T → Result (SegmentTree T)
  unfolding update_rec
  update t ql qr tag =
      if bad_range t ql qr
      then err invalid_range
      else ok
          (record t { root = update_rec (t.end - t.start) (or_new t.root) t.start t.end ql qr tag })

  -- `match (res_left, res_right)`; the last arm is unreachable.
  abbrev pub combine : Option T → Option T → T
  combine (some vl) (some vr) = s.merge vl vr
  combine (some vl) none = vl
  combine none (some vr) = vr
  combine none none = s.default

  -- A visit of a child that exists gives its result, that of a missing child the default.
  abbrev pub visit : (Node T → T × Node T) → Node T → Option T × Node T
  visit rec empty = (some s.default, empty)
  visit rec (node v lazy left right) = let (res, n) = rec (node v lazy left right) in (some res, n)

  abbrev pub query_children : (Node T → ℕ → ℕ → T × Node T) → Node T → ℕ → ℕ → ℕ → ℕ → T × Node T
  query_children rec empty l r ql qr = (s.default, empty)
  query_children rec (node v lazy left right) l r ql qr =
      let (res_left, left') =
        if ltb ql (middle l r) then visit (λ n. rec n l (middle l r)) left else (none, left) in
      let (res_right, right') =
        if ltb (middle l r) qr then visit (λ n. rec n (middle l r) r) right else (none, right) in
      (combine res_left res_right, node v lazy left' right')

  unfoldable pub query_rec : ℕ → Node T → ℕ → ℕ → ℕ → ℕ → T × Node T
  unfolding push_down
  query_rec zero n l r ql qr = (val_or_default n, n)
  query_rec (suc fuel) n l r ql qr =
      let below =
        query_children (λ m l' r'. query_rec fuel m l' r' ql qr) (push_down n l r) l r ql qr in
      if leb ql l && leb r qr then (val_or_default n, n) else below

  -- `query` takes `&mut self`: pushing tags down changes the tree.
  abbrev pub query_root : SegmentTree T → ℕ → ℕ → Node T → T × SegmentTree T
  query_root t ql qr empty = (s.default, t)
  query_root t ql qr (node v lazy left right) =
      let (res, root) = query_rec (t.end - t.start) (node v lazy left right) t.start t.end ql qr in
      (res, record t { root = root })

  unfoldable pub query : SegmentTree T → ℕ → ℕ → Result (T × SegmentTree T)
  unfolding query_rec
  query t ql qr = if bad_range t ql qr then err invalid_range else ok (query_root t ql qr t.root)
