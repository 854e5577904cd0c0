-- ===== src/Tests/RpcTests.antt =====
-- A daemon that keeps two lists of wallets, and the calls on it.
use emvault_elements.Prelude.{
  ℕ, ◌≡◌, refl, inl, inr, Option, none, some, List, [], ◌∷◌, map, if◌then◌else◌, ◌==◌, codes, Text,
}
use mathlib.Core.Option
use emvault_elements.Prelude.Tests.{bytes_eq}
use emvault_elements.Prelude.Result.{Result, ok, err}
use emvault_elements.Rpc.{ElementsRpc, Backend}
use emvault_elements.Rpc.Wallets.{ensure_wallet_loaded}
use emvault_elements.Rpc.Ensure.{Daemon, Names, Ensured, ensure_wallet_loaded-Ensured}

data Reply : Type 0 where
  text : Text → Reply
  texts : List Text → Reply
  other : Reply

-- The wallets that are loaded, and those on disk.
record Wallets : Type 0 where
  loaded : List Text
  on_disk : List Text

abbrev first_text : List Reply → Text
first_text (text t ∷ rest) = t
first_text _ = []

abbrev get : Reply → Text → Option Reply
get (text t) key = some (text t)
get (texts ts) key = some (texts ts)
get other key = none

abbrev as_array : Reply → Option (List Reply)
as_array (texts ts) = some (map text ts)
as_array _ = none

abbrev as_str : Reply → Option Text
as_str (text t) = some t
as_str _ = none

abbrev to_texts : Reply → Result Text (List Text)
to_texts (texts ts) = ok ts
to_texts _ = err []

abbrev answer : Text → List Reply → Wallets → Result Text Reply × Wallets
answer method args s =
    if method == codes "listwallets"
    then (ok (texts s.loaded), s)
    else if method == codes "listwalletdir"
    then (ok (texts s.on_disk), s)
    else if method == codes "loadwallet"
    then (ok other, record s { loaded = first_text args ∷ s.loaded })
    else if method == codes "createwallet"
    then (
      ok other,
      record { loaded = first_text args ∷ s.loaded; on_disk = first_text args ∷ s.on_disk },
    )
    else (err method, s)

abbrev backend : Backend Wallets (Unit {0}) Reply ℕ Text
backend = record {
  net = record {
    connect = λ url user password. ok tt;
    call = λ client. answer;
    get_block_count = λ client s. (ok 0, s);
  };
  json = record {
    string = text;
    bool = λ b. other;
    number = λ n. other;
    float = λ f. other;
    array = λ vs. other;
    object = λ fields. other;
    zero_float = 0;
    get = get;
    index = λ v key. other;
    as_str = as_str;
    as_array = as_array;
    as_f64 = λ v. none;
  };
  decode = record {
    texts = to_texts;
    text = λ v. err [];
    descriptor_info = λ v. err [];
    import_results = λ v. err [];
    utxos = λ v. err [];
    transactions = λ v. err [];
    funded_psbt = λ v. err [];
  };
}

abbrev node : ElementsRpc
node = record { base_url = codes "http://localhost:7041"; user = codes "u"; password = codes "p" }

named : (ts : List Text) → Names backend node (map text ts) ts
unfolding Names Option.bind
named [] = tt
named (t ∷ ts) = (refl, named ts)

abbrev daemon : Daemon backend node
daemon = record {
  client = tt;
  connects = refl;
  loaded = λ s. s.loaded;
  on_disk = λ s. s.on_disk;
  lists = λ s. (texts s.loaded, refl, refl);
  lists_dir = λ s.
      (texts s.on_disk, texts s.on_disk, map text s.on_disk, refl, refl, refl, named s.on_disk);
  loads = λ name s known fresh. record {
    reply = other;
    after = record s { loaded = name ∷ s.loaded };
    runs = refl;
    there = inl refl;
    kept = λ t m. inr m;
  };
  creates = λ name s unknown fresh. record {
    reply = other;
    after = record { loaded = name ∷ s.loaded; on_disk = name ∷ s.on_disk };
    runs = refl;
    there = inl refl;
    kept = λ t m. inr m;
  };
}

abbrev before : Wallets
before = record { loaded = codes "a" ∷ []; on_disk = codes "a" ∷ codes "b" ∷ [] }

ensure_wallet_loaded-Ensured_example :
    (done : Ensured backend node daemon (codes "b") before) × (ensure_wallet_loaded backend node
        (codes "b")
        done.after
      ≡ (ok tt, done.after))
ensure_wallet_loaded-Ensured_example =
    ensure_wallet_loaded-Ensured backend node daemon (codes "b") before
