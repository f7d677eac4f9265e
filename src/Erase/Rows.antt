-- ===== src/Erase/Rows.antt =====
-- What is left of the tables after the statements of erase/erase.go, said without them.
use nn_friends.Prelude.{
  ◌||◌, ℕ, ◌+◌, ◌≡◌, refl, List, [], ◌∷◌, Bool, false, not, keep, length, arith, ap, contains,
  nat_eq,
}
use nn_friends.Prelude.Dict.{Dict}
use nn_friends.Database.Tables.{Tables}
use nn_friends.Database.Rows.{delete, count}
use nn_friends.Database.Rows.Laws.{keep-delete, keep-not-delete}

-- No row of `ys` satisfies `p`, and the rows that do not are those of `xs`, in their order.
abbrev pub Removed : {A : Type 0} → (A → Bool) → List A → List A → Type 0
Removed p xs ys = (keep p ys ≡ []) × (keep (λ x. not (p x)) ys ≡ keep (λ x. not (p x)) xs)

abbrev pub OfPids : {V : Type 0} → List ℕ → Dict ℕ V → Dict ℕ V → Type 0
OfPids pids = Removed (λ row. contains row.0 pids)

-- A row between two people concerns both.
abbrev pub either : List ℕ → ℕ → ℕ → Bool
either pids one two = contains one pids || contains two pids

pub record IsErased (pids : List ℕ) (t u : Tables) : Type 0 where
  pub user_data : OfPids pids t.user_data u.user_data
  pub account_info : OfPids pids t.account_info u.account_info
  pub principals : OfPids pids t.principals u.principals
  pub miis : OfPids pids t.miis u.miis
  pub friendships : Removed (λ r. either pids r.user1_pid r.user2_pid) t.friendships u.friendships
  pub blocks : Removed (λ r. either pids r.blocker_pid r.blocked_pid) t.blocks u.blocks
  pub requests : Removed (λ r. either pids r.sender_pid r.recipient_pid) t.requests u.requests
  pub user_data_3ds : OfPids pids t.user_data_3ds u.user_data_3ds
  pub friendships_3ds :
      Removed (λ r. either pids r.user1_pid r.user2_pid) t.friendships_3ds u.friendships_3ds
  pub next_id : u.next_id ≡ t.next_id

-- How many rows the account has.
abbrev pub rows_of : List ℕ → Tables → ℕ
rows_of pids t =
    count (λ row. contains row.0 pids) t.user_data
    + count (λ row. contains row.0 pids) t.account_info
    + count (λ row. contains row.0 pids) t.principals
    + count (λ row. contains row.0 pids) t.miis
    + count (λ r. either pids r.user1_pid r.user2_pid) t.friendships
    + count (λ r. either pids r.blocker_pid r.blocked_pid) t.blocks
    + count (λ r. either pids r.sender_pid r.recipient_pid) t.requests
    + count (λ row. contains row.0 pids) t.user_data_3ds
    + count (λ r. either pids r.user1_pid r.user2_pid) t.friendships_3ds

module _ {A : Type 0} (p : A → Bool) where
  pub delete-Removed : (xs : List A) → Removed p xs (delete p xs)
  delete-Removed xs = (keep-delete p xs, keep-not-delete p xs)

  -- Where no row is left there is nothing to delete.
  pub count-none : (xs : List A) → keep p xs ≡ [] → count p xs ≡ 0
  count-none xs none_left = ap length none_left

module _ (pids : List ℕ) (t u : Tables) where
  -- Erased tables hold no row of the account.
  pub IsErased-rows_of : IsErased pids t u → rows_of pids u ≡ 0
  IsErased-rows_of h = ground (
    arith,
    count-none _ u.user_data h.user_data.0,
    count-none _ u.account_info h.account_info.0,
    count-none _ u.principals h.principals.0,
    count-none _ u.miis h.miis.0,
    count-none _ u.friendships h.friendships.0,
    count-none _ u.blocks h.blocks.0,
    count-none _ u.requests h.requests.0,
    count-none _ u.user_data_3ds h.user_data_3ds.0,
    count-none _ u.friendships_3ds h.friendships_3ds.0,
  )

keep_never : {A : Type 0} (xs : List A) → keep (λ _. false) xs ≡ []
keep_never [] = refl
keep_never (x ∷ xs) = keep_never xs

-- Of no PIDs there are no rows.
pub nothing-IsErased : (t : Tables) → IsErased [] t t
nothing-IsErased t = record {
  user_data = (keep_never t.user_data, refl);
  account_info = (keep_never t.account_info, refl);
  principals = (keep_never t.principals, refl);
  miis = (keep_never t.miis, refl);
  friendships = (keep_never t.friendships, refl);
  blocks = (keep_never t.blocks, refl);
  requests = (keep_never t.requests, refl);
  user_data_3ds = (keep_never t.user_data_3ds, refl);
  friendships_3ds = (keep_never t.friendships_3ds, refl);
  next_id = refl;
}
