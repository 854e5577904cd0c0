-- ===== src/Sync/Redeemable.antt =====
-- What a wallet is told that it can spend, it can spend: from registration to the stores.
pub mod Backed
use emvault_elements.Prelude.{
  ℕ, suc, ◌≡◌, ◌≢◌, refl, subst, sym, ap, ◌∙◌, inl, inr, Bool, true, false, Option, none, some,
  List, [], ◌∷◌, ◌++◌, IsMember, get_elem?, if◌then◌else◌, ◌==◌, Option-cases,
}
use emvault_elements.Prelude.Tests.{bytes_eq}
use emvault_elements.Prelude.Result.{Result, ok, err, panic}
use emvault_elements.Prelude.Map
use emvault_elements.Elements.{OutPoint, outpoint_eq, TxIn, TxOut, TxOutSecrets, Block}
use emvault_elements.Error.{WolletError}
use emvault_elements.Wollet
use emvault_elements.Wollet.{ElementsWollet}
use emvault_elements.Wollet.Paid.{Pays}
use emvault_elements.Sync.Types.{WalletId, CapturedUtxo}
use emvault_elements.Sync.Scan.{ScriptEntry, BlockScanEngine, captured_utxo}
use emvault_elements.Sync.Fakes.{World, Entry, fresh_entry, spend_entry, list_unspent}
use emvault_elements.Sync.Ledger.{
  Dated, opened, opened_by, spend, spend_inputs, create_output, create_outputs, ledger_tx, ledger,
  dated,
}
use emvault_elements.Sync.Balance.{list_unspent_lem}
use emvault_elements.Sync.History.{History, History-Synced}
use emvault_elements.Sync.Wired.{Built-IsWired}
use emvault_elements.Sync.Redeemable.Backed.{Makes, Makes-Built, Backs, Makes-Backs}

-- The output is paid to the address at its chain and index of a wollet that was registered for its
-- wallet, and its secrets are what this wollet unblinds.
pub record Redeems (ids : List WalletId) (wollets : List ElementsWollet) (u : CapturedUtxo)
    : Type 0 where
  pub place : ℕ
  pub wollet : ElementsWollet
  pub named : get_elem? ids place ≡ some u.wallet_id
  pub registered : get_elem? wollets place ≡ some wollet
  pub pays : Pays wollet u.txout.script_pubkey u.chain u.wildcard_index
  pub opens : Wollet.unblind wollet u.txout ≡ ok u.secrets

module _ (ids : List WalletId) (engine : BlockScanEngine) (made : Makes ids engine) where
  -- What is recorded, if anything, redeems.
  IsRedeemed : Option Entry → Type 0
  IsRedeemed none = Unit
  IsRedeemed (some e) = Redeems ids engine.wollets e.utxo

  spend-IsRedeemed : (h : ℕ) (o : Option Entry) → IsRedeemed o → IsRedeemed (spend h o)
  unfolding spend IsRedeemed
  spend-IsRedeemed h none r = tt
  spend-IsRedeemed h (some e) r = chosen e.utxo.is_spent
    where
      chosen : (b : Bool) → IsRedeemed (if b then some e else some (spend_entry h e))
      chosen true = r
      chosen false = record {
        place = r.place;
        wollet = r.wollet;
        named = r.named;
        registered = r.registered;
        pays = r.pays;
        opens = r.opens;
      }

  either :
      (b : Bool) (o p : Option Entry)
      → IsRedeemed o
      → IsRedeemed p
      → IsRedeemed (if b then o else p)
  either true o p h k = h
  either false o p h k = k

  module _ (op : OutPoint) where
    inputs-IsRedeemed :
        (h : ℕ) (is : List TxIn) (o : Option Entry)
        → IsRedeemed o
        → IsRedeemed (spend_inputs engine op h is o)
    unfolding spend_inputs
    inputs-IsRedeemed h [] o r = r
    inputs-IsRedeemed h (i ∷ is) o r =
        inputs-IsRedeemed h is _
          (either (i.previous_output == op) (spend h o) o (spend-IsRedeemed h o r) r)

    -- A watched output, by what unblinding it returns
    unblinded-IsRedeemed :
        (h : ℕ) (here : OutPoint) (txout : TxOut) (o : Option Entry) (entry : ScriptEntry)
        (b : Backs ids engine.wollets txout.script_pubkey entry)
        (r : Result WolletError TxOutSecrets)
        → Wollet.unblind b.wollet txout ≡ r
        → IsRedeemed o
        → IsRedeemed (elim (opened_by entry r) [
          | none ↦ o
          | some (e, secrets) ↦
              if here == op then some (fresh_entry (captured_utxo e h here txout secrets)) else o
        ])
    unfolding IsRedeemed
    unblinded-IsRedeemed h here txout o entry b (ok secrets) e r =
        either (here == op) (some (fresh_entry (captured_utxo entry h here txout secrets))) o
          (record {
            place = entry.wollet_idx;
            wollet = b.wollet;
            named = b.named;
            registered = b.registered;
            pays = b.pays;
            opens = e;
          })
          r
    unblinded-IsRedeemed h here txout o entry b (err x) e r = r
    unblinded-IsRedeemed h here txout o entry b panic e r = r

    output-IsRedeemed :
        (h txid vout : ℕ) (txout : TxOut) (o : Option Entry)
        → IsRedeemed o
        → IsRedeemed (create_output engine op h txid vout txout o)
    unfolding create_output opened
    output-IsRedeemed h txid vout txout o r =
        elim (Option-cases (Map.get txout.script_pubkey engine.index)) [
          | inl missing ↦ rw (missing, create_output, opened) r
          | inr (entry, found) ↦
              let b = Makes-Backs ids engine made txout.script_pubkey entry found in
              rw (found, b.registered, create_output, opened)
                (unblinded-IsRedeemed h (record { txid = txid; vout = vout }) txout o entry b
                  (Wollet.unblind b.wollet txout) refl r)
        ]

    outputs-IsRedeemed :
        (h txid vout : ℕ) (outs : List TxOut) (o : Option Entry)
        → IsRedeemed o
        → IsRedeemed (create_outputs engine op h txid vout outs o)
    unfolding create_outputs
    outputs-IsRedeemed h txid vout [] o r = r
    outputs-IsRedeemed h txid vout (txout ∷ outs) o r =
        outputs-IsRedeemed h txid (suc vout) outs _ (output-IsRedeemed h txid vout txout o r)

    ledger-IsRedeemed :
        (ds : List Dated) (o : Option Entry) → IsRedeemed o → IsRedeemed (ledger engine op ds o)
    unfolding ledger ledger_tx
    ledger-IsRedeemed [] o r = r
    ledger-IsRedeemed ((h, tx) ∷ ds) o r =
        ledger-IsRedeemed ds _
          (outputs-IsRedeemed h tx.txid 0 tx.output _ (inputs-IsRedeemed h tx.input o r))

  -- If the engine was made by registering wollets, for the wallets `ids` in order, and unblinding
  -- with each returns, then after any number of extensions and reorganisations of the node's
  -- chain (well-formed chains, each not empty, a fork of the last one and not shorter), each
  -- followed by one pass, an output that `list_unspent` returns for a wallet is paid
  -- to the address, at the output's chain and index, of a wollet that was registered for this
  -- wallet, and its secrets are what this wollet unblinds.
  pub list_unspent-Redeems :
      (w : World) (bs : List Block)
      → History engine w bs
      → (wallet : WalletId) (u : CapturedUtxo) → IsMember u (list_unspent w.utxos wallet)
      → (u.wallet_id ≡ wallet) × Redeems ids engine.wollets u
  unfolding IsRedeemed
  list_unspent-Redeems w bs history wallet u member =
      let synced =
        History-Synced engine (Built-IsWired engine (Makes-Built ids engine made)) w bs history in
      let s = (list_unspent_lem engine w bs synced.holds wallet u).0 member in
      let good = ledger-IsRedeemed u.outpoint (dated 0 bs) none tt in
      let here : Redeems ids engine.wollets s.entry.utxo = subst IsRedeemed s.found good in
      (s.owned, subst (Redeems ids engine.wollets) s.same here)
