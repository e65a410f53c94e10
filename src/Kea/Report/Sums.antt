-- ===== src/Kea/Report/Sums.antt =====
-- `build_report` of dhcp-server/kea_pool_stats.py: the rows of the pools add up to the summary.
use ffmuc_salt_public.Prelude.{
  ℕ, String, ◌≡◌, refl, ◌∙◌, ap, sym, Option, some, List, [], ◌∷◌, ◌++◌, All, arith, if◌then◌else◌,
  ◌==◌, string_eq,
}
use ffmuc_salt_public.Prelude.Result.{ok, >>=-eq-ok, ok_inj}
use ffmuc_salt_public.Kea.Counters.{Stats, counters, Counters}
use ffmuc_salt_public.Kea.Report.{
  Pool, Subnet, Dhcp4, Totals, no_totals, add_totals, PoolRow, NetworkRow, Report, or_nil, required,
  networks, subnet_counts, pool_rows, add_subnets, add_networks, build_report,
}

totals_ext :
    (a b : Totals) → a.defined ≡ b.defined → a.used ≡ b.used → a.touched ≡ b.touched → a ≡ b
totals_ext a b p q r i = record { defined = p i; used = q i; touched = r i }

add_totals_assoc : (a b c : Totals) → add_totals (add_totals a b) c ≡ add_totals a (add_totals b c)
add_totals_assoc a b c = totals_ext _ _ (omega arith) (omega arith) (omega arith)

add_totals_zero : (a : Totals) → add_totals a no_totals ≡ a
add_totals_zero a = totals_ext _ _ (omega arith) (omega arith) (omega arith)

zero_add_totals : (a : Totals) → add_totals no_totals a ≡ a
zero_add_totals a = totals_ext _ _ (omega arith) (omega arith) (omega arith)

-- The counts that a row shows
abbrev pub shown : Counters → Totals
shown c = record { defined = c.defined; used = c.used; touched = c.touched }

abbrev pub rows_total : List PoolRow → Totals
rows_total [] = no_totals
rows_total (row ∷ rows) = add_totals (shown row.counters) (rows_total rows)

shown-counters : (t : Totals) → shown (counters t.defined t.used t.touched) ≡ t
unfolding counters
shown-counters t = refl

rows_total-append :
    (xs ys : List PoolRow) → rows_total (xs ++ ys) ≡ add_totals (rows_total xs) (rows_total ys)
rows_total-append [] ys = sym (zero_add_totals (rows_total ys))
rows_total-append (x ∷ xs) ys =
    ap (add_totals (shown x.counters)) (rows_total-append xs ys)
    ∙ sym (add_totals_assoc (shown x.counters) (rows_total xs) (rows_total ys))

-- A subnet with at least one pool
abbrev pub HasPool : Subnet → Type 0
HasPool s = (p : Pool) × (rest : List Pool) × (s.pools ≡ some (p ∷ rest))

abbrev pub AllHavePools : List (String × List Subnet) → Type 0
AllHavePools = All (λ n. All HasPool n.1)

module _ (warning critical : Option ℕ) where
  -- The first row of a subnet carries its counts.
  first-total :
      (name : String) (s : Subnet) (t : Totals) (p : Pool) (pools : List Pool) (rows : List PoolRow)
      → pool_rows warning critical name s t (p ∷ pools) ≡ ok rows
      → (rest : List PoolRow) × (pool_rows warning critical name s no_totals pools ≡ ok rest)
        × (rows_total rows ≡ add_totals t (rows_total rest))
  unfolding pool_rows counters
  first-total name s t p pools rows h =
      let (text, _, h1) = >>=-eq-ok (required "pool" p.pool) _ h in
      let (location, _, h2) =
        >>=-eq-ok (if name == "" then required "subnet" s.subnet else ok name) _ h1 in
      let (rest, e, h3) = >>=-eq-ok (pool_rows warning critical name s no_totals pools) _ h2 in
      (rest, e, ap rows_total (sym (ok_inj h3)))

  no_rows-total :
      (name : String) (s : Subnet) (pools : List Pool) (rows : List PoolRow)
      → pool_rows warning critical name s no_totals pools ≡ ok rows
      → rows_total rows ≡ no_totals
  unfolding pool_rows
  no_rows-total name s [] rows h = ap rows_total (sym (ok_inj h))
  no_rows-total name s (p ∷ pools) rows h =
      let (rest, e, t) = first-total name s no_totals p pools rows h in
      t ∙ zero_add_totals (rows_total rest) ∙ no_rows-total name s pools rest e

  pool_rows-total :
      (name : String) (s : Subnet) (t : Totals) (rows : List PoolRow)
      → HasPool s
      → pool_rows warning critical name s t (or_nil s.pools) ≡ ok rows
      → rows_total rows ≡ t
  unfolding pool_rows
  pool_rows-total name s t rows (p, pools, e) h =
      let (rest, e', u) = first-total name s t p pools rows (rw e at h) in
      u ∙ ap (add_totals t) (no_rows-total name s pools rest e') ∙ add_totals_zero t

  module _ (stats : Stats) where
    add_subnets-total :
        (name : String) (subnets : List Subnet) (t : Totals) (found : List PoolRow × Totals)
        → All HasPool subnets
        → add_subnets warning critical stats name subnets t ≡ ok found
        → found.1 ≡ add_totals t (rows_total found.0)
    unfolding add_subnets
    add_subnets-total name [] t found a h =
        ap (λ f. f.1) (sym (ok_inj h))
        ∙ sym (add_totals_zero t)
        ∙ ap (λ f. add_totals t (rows_total f.0)) (ok_inj h)
    add_subnets-total name (s ∷ rest) t found a h =
        let (counts, _, h1) = >>=-eq-ok (subnet_counts stats s) _ h in
        let (rows, e, h2) =
          >>=-eq-ok (pool_rows warning critical name s counts (or_nil s.pools)) _ h1 in
        let (more, e', h3) =
          >>=-eq-ok (add_subnets warning critical stats name rest (add_totals t counts)) _ h2 in
        ap (λ f. f.1) (sym (ok_inj h3))
        ∙ add_subnets-total name rest (add_totals t counts) more a.1 e'
        ∙ add_totals_assoc t counts (rows_total more.0)
        ∙ ap (λ c. add_totals t (add_totals c (rows_total more.0)))
            (sym (pool_rows-total name s counts rows a.0 e))
        ∙ ap (add_totals t) (sym (rows_total-append rows more.0))
        ∙ ap (λ f. add_totals t (rows_total f.0)) (ok_inj h3)

    add_networks-total :
        (ns : List (String × List Subnet)) (t : Totals)
        (found : List PoolRow × List NetworkRow × Totals)
        → AllHavePools ns
        → add_networks warning critical stats ns t ≡ ok found
        → found.2 ≡ add_totals t (rows_total found.0)
    unfolding add_networks
    add_networks-total [] t found a h =
        ap (λ f. f.2) (sym (ok_inj h))
        ∙ sym (add_totals_zero t)
        ∙ ap (λ f. add_totals t (rows_total f.0)) (ok_inj h)
    add_networks-total ((name, subnets) ∷ rest) t found a h =
        let (net, e, h1) =
          >>=-eq-ok (add_subnets warning critical stats name subnets no_totals) _ h in
        let (more, e', h2) =
          >>=-eq-ok (add_networks warning critical stats rest (add_totals t net.1)) _ h1 in
        let own =
          add_subnets-total name subnets no_totals net a.0 e ∙ zero_add_totals (rows_total net.0) in
        ap (λ f. f.2) (sym (ok_inj h2))
        ∙ add_networks-total rest (add_totals t net.1) more a.1 e'
        ∙ add_totals_assoc t net.1 (rows_total more.0)
        ∙ ap (λ c. add_totals t (add_totals c (rows_total more.0))) own
        ∙ ap (add_totals t) (sym (rows_total-append net.0 more.0))
        ∙ ap (λ f. add_totals t (rows_total f.0)) (ok_inj h2)

    -- Where every subnet has a pool, the addresses defined, used and declined of the report's rows
    -- add up to those of the summary, though Kea counts per subnet and the rows are per pool: no
    -- subnet is counted for two of its pools, and none is left out.
    pub build_report-sums :
        (config : Dhcp4) (report : Report)
        → AllHavePools (networks config)
        → build_report warning critical config stats ≡ ok report
        → shown report.summary.counters ≡ rows_total report.subnets
    unfolding build_report
    build_report-sums config report a h =
        let (all, e, h1) =
          >>=-eq-ok (add_networks warning critical stats (networks config) no_totals) _ h in
        ap (λ r. shown r.summary.counters) (sym (ok_inj h1))
        ∙ shown-counters all.2
        ∙ add_networks-total (networks config) no_totals all a e
        ∙ zero_add_totals (rows_total all.0)
        ∙ ap (λ r. rows_total r.subnets) (ok_inj h1)
