-- ===== src/Orphans/Rows.antt =====
-- What the statements of deleteRows in coreevents/profile.go leave in the tables.
use nn_friends.Prelude.{
  ℕ, ◌≡◌, ◌≢◌, refl, ◌∙◌, List, [], ◌∷◌, true, false, All, contains, nat_eq, nat_beq_iff, arith,
  Bool-cases, inl, inr, subst,
}
use nn_friends.Prelude.Dict.{Dict, get}
use nn_friends.Database.Tables.{Tables, UserData, AccountInfo, PrincipalRow, MiiRow, UserData3ds}
use nn_friends.Erase.{Statement, remove_all}
use nn_friends.Orphans.{orphan_statements}

-- The rows of `q` are as before, and so is every row that stands between two people.
pub record KeepsRows (q : ℕ) (t u : Tables) : Type 0 where
  pub user_data : get u.user_data q ≡ get t.user_data q
  pub account_info : get u.account_info q ≡ get t.account_info q
  pub principals : get u.principals q ≡ get t.principals q
  pub miis : get u.miis q ≡ get t.miis q
  pub user_data_3ds : get u.user_data_3ds q ≡ get t.user_data_3ds q
  pub friendships : u.friendships ≡ t.friendships
  pub blocks : u.blocks ≡ t.blocks
  pub requests : u.requests ≡ t.requests
  pub friendships_3ds : u.friendships_3ds ≡ t.friendships_3ds

pub KeepsRows-refl : (q : ℕ) (t : Tables) → KeepsRows q t t
KeepsRows-refl q t = record {
  user_data = refl;
  account_info = refl;
  principals = refl;
  miis = refl;
  user_data_3ds = refl;
  friendships = refl;
  blocks = refl;
  requests = refl;
  friendships_3ds = refl;
}

pub KeepsRows-∙ : (q : ℕ) (t u v : Tables) → KeepsRows q t u → KeepsRows q u v → KeepsRows q t v
KeepsRows-∙ q t u v h k = record {
  user_data = k.user_data ∙ h.user_data;
  account_info = k.account_info ∙ h.account_info;
  principals = k.principals ∙ h.principals;
  miis = k.miis ∙ h.miis;
  user_data_3ds = k.user_data_3ds ∙ h.user_data_3ds;
  friendships = k.friendships ∙ h.friendships;
  blocks = k.blocks ∙ h.blocks;
  requests = k.requests ∙ h.requests;
  friendships_3ds = k.friendships_3ds ∙ h.friendships_3ds;
}

get-remove_all :
    {V : Type 0} (pids : List ℕ) (d : Dict ℕ V) (q : ℕ)
    → contains q pids ≡ false
    → get (remove_all pids d) q ≡ get d q
get-remove_all pids [] q h = refl
get-remove_all pids ((p, v) ∷ d) q h = elim (Bool-cases (contains p pids)) [
  | inl gone ↦ simp (gone) (get-remove_all pids d q h ∙ ground (arith, nat_beq_iff p q, other gone))
  | inr stays ↦ simp (stays) (ground (arith, get-remove_all pids d q h))
]
  where
    other : contains p pids ≡ true → p ≢ q
    other gone same = cc (h, subst (λ x. contains x pids ≡ true) same gone)

-- A statement that leaves alone who is not listed.
abbrev pub Spares : ℕ → List ℕ → Statement → Type 0
Spares q pids stmt = (t : Tables) → KeepsRows q t (stmt pids t).1

module _ (q : ℕ) (pids : List ℕ) (h : contains q pids ≡ false) where
  pub orphan_statements-Spares : All (Spares q pids) orphan_statements
  orphan_statements-Spares = (
    (λ t. keeps t _ _ _ _ _ (get-remove_all pids t.user_data q h) refl refl refl refl),
    (
      (λ t. keeps t _ _ _ _ _ refl (get-remove_all pids t.account_info q h) refl refl refl),
      (
        (λ t. keeps t _ _ _ _ _ refl refl (get-remove_all pids t.principals q h) refl refl),
        (
          (λ t. keeps t _ _ _ _ _ refl refl refl (get-remove_all pids t.miis q h) refl),
          (
            (λ t. keeps t _ _ _ _ _ refl refl refl refl (get-remove_all pids t.user_data_3ds q h)),
            tt,
          ),
        ),
      ),
    ),
  )
    where
      keeps :
          (t : Tables) (a : Dict ℕ UserData) (b : Dict ℕ AccountInfo) (c : Dict ℕ PrincipalRow)
          (d : Dict ℕ MiiRow) (e : Dict ℕ UserData3ds)
          → get a q ≡ get t.user_data q
          → get b q ≡ get t.account_info q
          → get c q ≡ get t.principals q
          → get d q ≡ get t.miis q
          → get e q ≡ get t.user_data_3ds q
          → KeepsRows q t (record t {
            user_data = a;
            account_info = b;
            principals = c;
            miis = d;
            user_data_3ds = e;
          })
      keeps t a b c d e ha hb hc hd he = record {
        user_data = ha;
        account_info = hb;
        principals = hc;
        miis = hd;
        user_data_3ds = he;
        friendships = refl;
        blocks = refl;
        requests = refl;
        friendships_3ds = refl;
      }
