-- ===== src/Database/Backend.antt =====
-- What the code in database/ calls beside the database: the friend graph of coregraph, the profile
-- of a PID at nn-account, the core's sessions, and the clock with the packed times of nex-go. `core_backend` fills the
-- interface with the operations of coregraph/coregraph.go.
use nn_friends.Prelude.{ℕ, String, List, Bool, ◌≡◌, Exec}
use nn_friends.Errors.{Error}
use nn_friends.Prelude.Dict.{Dict}
use nn_friends.Coregraph.Services.{Services, Profile, LivePresence}
use nn_friends.Coregraph.Links
use nn_friends.Coregraph.Client
use nn_friends.Coregraph.Client.{Client, call}
use nn_friends.Coregraph.Social
use nn_friends.Coregraph.Social.{RequestState}

pub record Backend : Type 1 where
  pub State : Type 0
  pub now : State → ℕ
  -- `DateTime.FromTimestamp` and `Standard`
  pub stamp : ℕ → ℕ
  pub standard : ℕ → ℕ
  pub standard-stamp : (t : ℕ) → standard (stamp t) ≡ t
  pub get_user_data : ℕ → Exec State Error Profile
  pub request : String → ℕ → ℕ → Exec State Error RequestState
  -- addressee, requester
  pub accept_request : String → ℕ → ℕ → Exec State Error (Unit {0})
  pub remove : String → ℕ → ℕ → Exec State Error (Unit {0})
  pub block : String → ℕ → ℕ → Exec State Error (Unit {0})
  pub unblock : String → ℕ → ℕ → Exec State Error (Unit {0})
  pub is_blocked : String → ℕ → ℕ → Exec State Error Bool
  pub friend_pids : String → ℕ → Exec State Error (List ℕ)
  pub incoming_requester_pids : String → ℕ → Exec State Error (List ℕ)
  pub outgoing_addressee_pids : String → ℕ → Exec State Error (List ℕ)
  -- `coregraph.Configured`
  pub configured : State → Bool
  pub account_of_pid : String → ℕ → Exec State Error String
  pub pid_of_account : String → String → Exec State Error ℕ
  pub pids_of_account : String → Exec State Error (List ℕ)
  pub friend_accounts_by_pid : String → ℕ → Exec State Error (Dict ℕ String)
  pub get_presence : List String → Exec State Error (List LivePresence)
  pub put_mii : String → List ℕ → Exec State Error (Unit {0})

abbrev pub core_backend :
    (svc : Services) (stamp standard : ℕ → ℕ) → ((t : ℕ) → standard (stamp t) ≡ t) → Backend
core_backend svc stamp standard law = record {
  State = Client svc.World;
  now = λ s. svc.now s.world;
  stamp = stamp;
  standard = standard;
  standard-stamp = law;
  get_user_data = λ pid. call svc (svc.get_user_data pid);
  request = Social.request svc;
  accept_request = Social.accept_request svc;
  remove = Social.remove svc;
  block = Social.block svc;
  unblock = Social.unblock svc;
  is_blocked = Social.is_blocked svc;
  friend_pids = Social.friend_pids svc;
  incoming_requester_pids = Social.incoming_requester_pids svc;
  outgoing_addressee_pids = Social.outgoing_addressee_pids svc;
  configured = λ s. s.configured;
  account_of_pid = Client.account_of_pid svc;
  pid_of_account = Client.pid_of_account svc;
  pids_of_account = Links.pids_of_account svc;
  friend_accounts_by_pid = Social.friend_accounts_by_pid svc;
  get_presence = λ accounts. call svc (svc.get_presence accounts);
  put_mii = λ account mii. call svc (svc.put_mii account mii);
}
