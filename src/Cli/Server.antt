-- ===== src/Cli/Server.antt =====
-- The server that the arguments of cli/src/args.rs name, and the genesis blocks of the networks.
use rgb.Base.{
  ◌≡◌, ◌↔◌, ◌⊎◌, inl, inr, refl, sym, ap, ◌∙◌, String, Option, none, some, [], ok, err, panic,
  Result, arith,
}
use rgb.Chain.{Network, mainnet, testnet3, signet, regtest}
use rgb.Cli.Args.{chosen, resolver}
use rgb.Cli.Completes.{resolver_iff}
use rgb.Cli.Connected.{IsConnected}
use rgb.Cli.Env.{Env, RgbArgs}
use rgb.Cli.Io.{World}
use rgb.Resolver.Any.{AnyResolver, from_client, genesis_hash}
use rgb.Resolver.Any as Any

-- the genesis blocks, by the hashes that are known of the networks
pub data IsGenesis : Network → String → Type 0 where
  main_block : IsGenesis mainnet "000000000019d6689c085ae165831e934ff763ae46a2a6c172b3f1b60a8ce26f"
  test_block : IsGenesis testnet3 "000000000933ea01ad0ee984209779baaec3ced90fa3f408719526f8d77f4943"
  signet_block : IsGenesis signet "00000008819873e925422c1ff0f99f7cc9bbb232af63a077a480a3633bee1ef6"
  regtest_block :
      IsGenesis regtest "0f9188f13cb7b2c71f2a335e3a4fc328bf5beb436012afca590b1a11466e2206"

genesis_hash-IsGenesis : (network : Network) → IsGenesis network (genesis_hash network)
unfolding genesis_hash
genesis_hash-IsGenesis mainnet = main_block
genesis_hash-IsGenesis testnet3 = test_block
genesis_hash-IsGenesis signet = signet_block
genesis_hash-IsGenesis regtest = regtest_block

IsGenesis-eq :
    (network : Network) (hash : String) → IsGenesis network hash → hash ≡ genesis_hash network
unfolding genesis_hash
IsGenesis-eq mainnet hash main_block = refl
IsGenesis-eq testnet3 hash test_block = refl
IsGenesis-eq signet hash signet_block = refl
IsGenesis-eq regtest hash regtest_block = refl

module _ (env : Env) (args : RgbArgs) where
  open env use {Disk, Client, Tx, client_api, txid, not_layer1, electrum_client, esplora_client}

  -- The client is that of the electrum server, and no esplora server is named, or the other way
  -- around.
  abbrev pub IsClient : Option String → Option String → Client → Type 0
  IsClient electrum esplora client =
      ((url : String) × (electrum ≡ some url)
        × (esplora ≡ none)
        × (electrum_client url ≡ ok client))
      ⊎ ((url : String) × (electrum ≡ none)
          × (esplora ≡ some url)
          × (esplora_client url ≡ ok client))

  -- a resolver over the only server, with no transactions of its own; the server has the genesis
  -- block of the network
  pub record IsServed (r : AnyResolver Client Tx) : Type 0 where
    pub client : IsClient args.electrum args.esplora r.inner
    pub no_terminals : r.terminal_txes ≡ []
    pub block : String
    pub is_genesis : IsGenesis args.network block
    pub has_block : client_api.check r.inner args.network block ≡ ok tt

  from_client-ok :
      (made : Result String Client) (r : AnyResolver Client Tx)
      → from_client made ≡ ok r
      → (made ≡ ok r.inner) × (r.terminal_txes ≡ [])
  unfolding from_client
  from_client-ok (ok c) r h = ground arith
  from_client-ok (err e) r h = absurd (ground arith)
  from_client-ok panic r h = absurd (ground arith)

  chosen-IsClient :
      (esplora electrum : Option String) (r : AnyResolver Client Tx)
      → chosen env args esplora electrum ≡ ok r
      → IsClient electrum esplora r.inner × (r.terminal_txes ≡ [])
  unfolding chosen
  chosen-IsClient none none r h = absurd (ground arith)
  chosen-IsClient (some a) (some b) r h = absurd (ground arith)
  chosen-IsClient none (some url) r h =
      let (made, empty) = from_client-ok (electrum_client url) r h in
      (inl (url, refl, refl, made), empty)
  chosen-IsClient (some url) none r h =
      let (made, empty) = from_client-ok (esplora_client url) r h in
      (inr (url, refl, refl, made), empty)

  IsClient-chosen :
      (esplora electrum : Option String) (r : AnyResolver Client Tx)
      → IsClient electrum esplora r.inner
      → r.terminal_txes ≡ []
      → chosen env args esplora electrum ≡ ok r
  unfolding chosen from_client
  IsClient-chosen esplora electrum r (inl (url, e, n, made)) h = rw (e, n, made) (ground arith)
  IsClient-chosen esplora electrum r (inr (url, n, e, made)) h = rw (e, n, made) (ground arith)

  pub connected-IsServed : (r : AnyResolver Client Tx) → IsConnected env args r → IsServed r
  unfolding Any.check
  connected-IsServed r c =
      let (client, empty) = chosen-IsClient args.esplora args.electrum r c.chosen in
      record {
        client = client;
        no_terminals = empty;
        block = genesis_hash args.network;
        is_genesis = genesis_hash-IsGenesis args.network;
        has_block = c.check;
      }

  served-IsConnected : (r : AnyResolver Client Tx) → IsServed r → IsConnected env args r
  unfolding Any.check
  served-IsConnected r s = record {
    chosen = IsClient-chosen args.esplora args.electrum r s.client s.no_terminals;
    check =
        ap (client_api.check r.inner args.network)
          (sym (IsGenesis-eq args.network s.block s.is_genesis))
        ∙ s.has_block;
  }

  pub resolver-IsServed :
      (w : World Disk) (r : AnyResolver Client Tx) → (resolver env args w).1 ≡ ok r ↔ IsServed r
  resolver-IsServed w r =
      let (to, from) = resolver_iff env args w r in
      (λ h. connected-IsServed r (to h), λ s. from (served-IsConnected r s))
