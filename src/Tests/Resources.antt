-- ===== src/Tests/Resources.antt =====
-- The construction of the service with one injected resource.
use license_service.Prelude.{
  Option, ◌≡◌, ◌+◌, ◌≤◌, Bool, true, false, Text, List, ℕ, refl, codes, [], ◌∷◌, some, none, pos,
  inr,
}
use license_service.Startup.Construct.{
  Component, database, redis, Injected, Connector, Stopper, Config, new_service,
}
use license_service.Startup.Construct.Accounted.{Accounts, new_service-Accounts}
use license_service.Startup.Construct.Connect.{
  module_mode, ConnectConfig, Connected, connect_all, connect_all-one_module, is_embedded, one,
}
use license_service.Store.Rows.{count}
use license_service.Tests.Libraries.{toy_crypto}

-- Every connection is number 7.
abbrev connects_always : (c : Component) → Connector c ℕ
connects_always c = record {
  connect = λ o m. elim o [ none ↦ (some 7, c ∷ m) | some r ↦ (some r, m) ];
  connect-injected = λ r m. refl;
  connect-own = λ m. inr (7, refl);
}

abbrev stops_all : Stopper
stops_all = record { stop = λ m. m; stop_lem = λ m. refl }

abbrev the_cron : Option ℕ
the_cron = some 1

abbrev no_keys : Config
no_keys = record {
  trial_days = some (pos 14);
  rate_limit = some (record { key_prefix = codes "rl"; window = pos 60; max = pos 10 });
  signing = none;
}

abbrev own_database : Injected ℕ ℕ ℕ
own_database = record { db = none; redis = some 3; cron = none }

new_service-Accounts_example :
    Accounts toy_crypto
      (connects_always database)
      (connects_always redis)
      stops_all
      the_cron
      own_database
      (new_service toy_crypto
        (connects_always database)
        (connects_always redis)
        stops_all
        the_cron
        no_keys
        own_database)
new_service-Accounts_example =
    new_service-Accounts toy_crypto (connects_always database) (connects_always redis) stops_all
      the_cron no_keys own_database

abbrev reached : Text → Bool
reached target = true

abbrev one_key : Config
one_key = record no_keys {
  signing = some (record {
    keys =
        some (record { key_id = codes "k1"; seed = codes "0123456789abcdef0123456789abcdef" }) ∷ [];
    sign_key_id = codes "k1";
  });
}

abbrev embedding :
    ConnectConfig toy_crypto
      (connects_always database)
      (connects_always redis)
      stops_all
      the_cron
      reached
embedding = record { mode = module_mode; target = []; config = some one_key; opts = own_database }

abbrev twice :
    List (
      Connected toy_crypto
        (connects_always database)
        (connects_always redis)
        stops_all
        the_cron
        reached)
    × Bool
twice =
    connect_all toy_crypto (connects_always database) (connects_always redis) stops_all the_cron
      reached (embedding ∷ embedding ∷ []) false

abbrev made : ℕ
made =
    count
      (is_embedded toy_crypto (connects_always database) (connects_always redis) stops_all the_cron
        reached)
      twice.0

connect_all-one_module_example : (0 + made ≤ 1) × (one twice.1 ≡ 0 + made)
connect_all-one_module_example =
    connect_all-one_module toy_crypto (connects_always database) (connects_always redis) stops_all
      the_cron reached (embedding ∷ embedding ∷ []) false
