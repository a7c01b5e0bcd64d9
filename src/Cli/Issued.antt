-- ===== src/Cli/Issued.antt =====
-- What `issue` of cli/src/command.rs takes into the stock.
use rgb.Base.{
  ℕ, ◌≡◌, ◌≢◌, refl, ap, sym, ◌∙◌, String, Result, ok, panic, map_err, is_ok, true, arith,
}
use rgb.Cli.Args.{resolver}
use rgb.Cli.Composed.{IsComposed}
use rgb.Cli.Composes.{compose-IsComposed}
use rgb.Cli.Connected.{resolver-IsConnected, resolver-IsFresh}
use rgb.Cli.Ends.{Ends, Completes, after-Ends, said-Ends, with_stock-Completes}
use rgb.Cli.Env.{Env, stock_files, RgbArgs}
use rgb.Cli.Files.{FileApi, change_stock}
use rgb.Cli.Genesis.{IssueApi, compose}
use rgb.Cli.Io.{World, inner}
use rgb.Cli.Issue.{issue_with, run_issue}
use rgb.Cli.Keeps.{map_err-ok}
use rgb.Cli.Reads.{IsThere}
use rgb.Cli.Server.{IsServed, connected-IsServed, resolver-IsServed}
use rgb.Cli.Recomposes.{IsComposed-compose}
use rgb.Cli.Settled.{IsFresh, change-IsChanged}
use rgb.Resolver.Any.{AnyResolver}
use rgb.Store.Disk.{StoreLaws}
use rgb.Store.Stock.{StoredStock}
use rgb.Wallet.Errors.{io, yaml as yaml_error}

same_ok : {E A : Type 0} {r : Result E A} {a b : A} → r ≡ ok a → r ≡ ok b → b ≡ a
same_ok h k = ground arith

converted :
    {E E' A : Type 0} (r : Result E A) (convert : E → E')
    → is_ok r ≡ true
    → is_ok (map_err r convert) ≡ true
converted r convert h = ground arith

module _ (env : Env) (args : RgbArgs) (files : FileApi env)
    (api : IssueApi env files.ValidContract) where
  open env use {foreign, Disk, Stock, Client, Tx}

  -- `s` is what `stock` imports of the contract that is issued with all entries of a file's YAML
  pub record IsIssued (schema_id : ℕ) (issuer file : String) (disk : Disk) (stock s : Stock)
      : Type 0 where
    pub text : api.Text
    pub opens : api.open_file file disk ≡ ok text
    pub code : api.Yaml
    pub reads : api.from_reader text ≡ ok code
    pub contract : files.ValidContract
    pub composed : IsComposed env api stock schema_id issuer code contract
    pub resolver : AnyResolver Client Tx
    pub served : IsServed env args resolver
    pub imports : s ≡ (files.import_contract stock contract resolver).0

  -- what there is at each step, if there is a stock with the issued contract
  module _ (schema_id : ℕ) (issuer file : String) (disk : Disk) (stock x : Stock)
      (q : IsIssued schema_id issuer file disk stock x) where
    issued_opens : is_ok (api.open_file file disk) ≡ true
    issued_opens = rw (q.opens) refl

    issued_reads :
        (text : api.Text) → api.open_file file disk ≡ ok text → is_ok (api.from_reader text) ≡ true
    issued_reads text opens = rw (← same_ok opens q.opens, q.reads) refl

    issued_composes :
        (text : api.Text) (code : api.Yaml)
        → api.open_file file disk ≡ ok text
        → api.from_reader text ≡ ok code
        → is_ok (compose env api stock schema_id issuer code) ≡ true
    issued_composes text code opens reads =
        let same : q.code ≡ code =
          same_ok reads (ap api.from_reader (sym (same_ok opens q.opens)) ∙ q.reads) in
        ap (λ c. is_ok (compose env api stock schema_id issuer c)) (sym same)
        ∙ ap is_ok (IsComposed-compose env api stock schema_id issuer q.code q.contract q.composed)

    issued_connects : (w : World Disk) → is_ok (resolver env args w).1 ≡ true
    issued_connects w = ap is_ok ((resolver-IsServed env args w q.resolver).1 q.served)

  issue-Ends :
      (schema_id : ℕ) (issuer file : String) (disk : Disk) (stock : Stock)
      (p : StoredStock String Stock × World Disk)
      → IsFresh env args disk stock p
      → Ends env args disk
          (IsIssued schema_id issuer file disk stock)
          (issue_with env args files api schema_id issuer file p)
  issue-Ends schema_id issuer file disk stock (s, w) h =
      let Q = IsIssued schema_id issuer file disk stock in
      let w1 = (resolver env args w).0 in
      let h1 = resolver-IsFresh env args disk stock (s, w) h in
      after-Ends env args disk stock Q ((s, w), map_err (api.open_file file w.disk) io) _ h
        (λ x q. converted (api.open_file file w.disk) io (
          ap (λ d. is_ok (api.open_file file d)) h.same_disk
          ∙ issued_opens schema_id issuer file disk stock x q))
        (λ text opened.
          let opens : api.open_file file disk ≡ ok text =
            ap (api.open_file file) (sym h.same_disk) ∙ map_err-ok _ io text opened in
          after-Ends env args disk stock Q ((s, w), map_err (api.from_reader text) yaml_error) _ h
            (λ x q.
              converted (api.from_reader text) yaml_error
                (issued_reads schema_id issuer file disk stock x q text opens))
            (λ code read.
              let reads = map_err-ok (api.from_reader text) yaml_error code read in
              after-Ends env args disk stock Q
                ((s, w), compose env api s.stock schema_id issuer code) _ h
                (λ x q.
                  ap (λ y. is_ok (compose env api y schema_id issuer code)) h.same_stock
                  ∙ issued_composes schema_id issuer file disk stock x q text code opens reads)
                (λ c made.
                  let composes =
                    ap (λ y. compose env api y schema_id issuer code) (sym h.same_stock) ∙ made in
                  after-Ends env args disk stock Q (inner (resolver env args) (s, w)) _ h1
                    (λ x q. issued_connects schema_id issuer file disk stock x q w)
                    (λ r connects.
                      let call : Stock → Stock × Result env.StockError (Unit {0}) =
                        λ x. files.import_contract x c r in
                      said-Ends env args disk Q _ (change_stock env args call (s, w1)) (
                        change-IsChanged env args disk stock Q (s, w1) call h1
                          (record {
                            text = text;
                            opens = opens;
                            code = code;
                            reads = reads;
                            contract = c;
                            composed =
                                compose-IsComposed env api stock schema_id issuer code c composes;
                            resolver = r;
                            served =
                                connected-IsServed env args r
                                  (resolver-IsConnected env args w r connects);
                            imports = refl;
                          }))))))

  -- An `issue` that does not panic leaves in the stock's file what the stock imports, over the
  -- resolver of the one server that the arguments name, of the contract that is issued with every
  -- global state and every assignment of the YAML of the file added in order; or there is no such
  -- contract or no such resolver, and it ends with an error and leaves the disk as it was. The
  -- stock's file is there at the start and keeps what was stored.
  pub issue_composed :
      (schema_id : ℕ) (issuer file : String) (w : World Disk) (there : IsThere env args w.disk)
      → StoreLaws (stock_files env)
      → (run_issue env args files api schema_id issuer file w).1 ≢ panic
      → let (w', r) = run_issue env args files api schema_id issuer file w in
        Completes env args w.disk (IsIssued schema_id issuer file w.disk there.stock) w'.disk r
  unfolding run_issue
  issue_composed schema_id issuer file w there laws =
      with_stock-Completes env args (IsIssued schema_id issuer file w.disk there.stock)
        (issue_with env args files api schema_id issuer file) w there laws
        (issue-Ends schema_id issuer file w.disk there.stock)
