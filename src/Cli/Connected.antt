-- ===== src/Cli/Connected.antt =====
-- The resolver of cli/src/args.rs, and a stock that is held while a command works on it.
use mathlib.Core.Path.{subst}
use rgb.Base.{◌≡◌, ◌∙◌, ok, arith, map_err}
use rgb.Cli.Args.{chosen, resolver}
use rgb.Cli.Env.{Env, RgbArgs}
use rgb.Cli.Io.{Line, World, pure, say, inner}
use rgb.Cli.Keeps.{map_err-ok, after-ok, Keeps}
use rgb.Cli.Reads.{resolver-OnDisk}
use rgb.Cli.Settled.{IsFresh}
use rgb.Resolver.Any as Any
use rgb.Resolver.Any.{AnyResolver}
use rgb.Wallet.Errors.{WalletError, custom, resolver as resolver_error}

module _ (env : Env) (args : RgbArgs) where
  open env use {foreign, Disk, Stock, Client, Tx, client_api, txid, not_layer1, is_testnet}

  -- the resolver is that of the one server that the arguments name, and the server is of the network
  pub record IsConnected (r : AnyResolver Client Tx) : Type 0 where
    pub chosen : chosen env args args.esplora args.electrum ≡ ok r
    pub check : Any.check client_api txid not_layer1 r args.network ≡ ok tt

  pub resolver-IsConnected :
      (w : World Disk) (r : AnyResolver Client Tx) → (resolver env args w).1 ≡ ok r → IsConnected r
  unfolding resolver
  resolver-IsConnected w r h =
      let tried = map_err (chosen env args args.esplora args.electrum) resolver_error in
      let (r', c, h') = after-ok (w, tried) _ r h in
      let checked = Any.check client_api txid not_layer1 r' args.network in
      let (done, k, same) = after-ok (w, map_err checked custom) (λ done. pure r') r h' in
      record {
        chosen = map_err-ok _ resolver_error r' c ∙ ground arith;
        check =
            subst (λ x. Any.check client_api txid not_layer1 x args.network ≡ ok tt) (ground arith)
              (map_err-ok checked custom done k);
      }

  pub resolver-IsFresh :
      (disk : Disk) (stock : Stock)
      → Keeps (IsFresh env args disk stock) (inner (resolver env args))
  resolver-IsFresh disk stock (s, w) h = record {
    clean = h.clean;
    same_disk = resolver-OnDisk env args disk w h.same_disk;
    same_stock = h.same_stock;
    same_path = h.same_path;
  }

  pub say-IsFresh :
      (disk : Disk) (stock : Stock) (line : Line)
      → Keeps (IsFresh env args disk stock) (say {E = WalletError foreign} line)
  say-IsFresh disk stock line p h = record {
    clean = h.clean;
    same_disk = h.same_disk;
    same_stock = h.same_stock;
    same_path = h.same_path;
  }
