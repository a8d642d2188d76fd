-- ===== src/Nft/Table.antt =====
-- A table in memory that meets the interface of `nft`: the laws can hold.
use wiregui.Base.{
  ◌≡◌, refl, ap, Bool, true, false, ◌&&◌, ◌||◌, not, Option, none, some, List, [], ◌∷◌, ◌++◌, Text,
  codes, if◌then◌else◌, is_some, Outcome, done, failed, arith, add,
}
use wiregui.Nft.Tool.{
  Command, RuleExpr, Nftables, View, update, rules_or_empty, resolves, any_refers,
}
use wiregui.Nft.Tool.{add_table, add_base_chain, add_chain, flush_chain, delete_chain, add_rule}

-- The chains of the table with their rules, and the names that were ever given to one.
pub record Table : Type 0 where
  pub names : List Text
  pub view : View

abbrev pub no_such_file : Text
no_such_file = codes "Error: No such file or directory"

abbrev pub any_chain_refers : Text → View → List Text → Bool
any_chain_refers c v [] = false
any_chain_refers c v (d ∷ ds) = any_refers c (rules_or_empty (v d)) || any_chain_refers c v ds

abbrev pub add_to : Text → Table → Table
add_to c t = record {
  names = add c t.names;
  view = update t.view c (some (rules_or_empty (t.view c)));
}

abbrev pub run_table : Command → Table → Outcome Table
run_table add_table t = done t
run_table (add_base_chain c spec) t = done (add_to c t)
run_table (add_chain c) t = done (add_to c t)
run_table (flush_chain c) t =
    if is_some (t.view c)
    then done (record t { view = update t.view c (some []) })
    else failed no_such_file
run_table (delete_chain c) t =
    if is_some (t.view c) && not (any_chain_refers c t.view t.names)
    then done (record t { view = update t.view c none })
    else failed no_such_file
run_table (add_rule c e) t =
    if is_some (t.view c) && resolves t.view e
    then done (record t { view = update t.view c (some (rules_or_empty (t.view c) ++ (e ∷ []))) })
    else failed no_such_file

-- The listing names each chain on a line of its own.
abbrev pub listing : View → List Text → Text
listing v [] = codes "}"
listing v (c ∷ cs) =
    let rest = listing v cs in
    if is_some (v c) then (9 ∷ codes "chain ") ++ (c ++ (codes " {" ++ (10 ∷ rest))) else rest

abbrev pub list_table : Table → Option Text
list_table t = some (codes "table inet wiregui {" ++ (10 ∷ listing t.view t.names))

pub none_refers :
    (c : Text) (v : View) (ds : List Text)
    → ((d : Text) → any_refers c (rules_or_empty (v d)) ≡ false)
    → any_chain_refers c v ds ≡ false
none_refers c v [] h = refl
none_refers c v (d ∷ ds) h = ground (arith, h d, none_refers c v ds h)

pub flush_law :
    (c : Text) (t : Table)
    → is_some (t.view c) ≡ true
    → (t' : Table) × (run_table (flush_chain c) t ≡ done t') × (t'.view ≡ update t.view c (some []))
flush_law c t h = (record t { view = update t.view c (some []) }, rw h, refl)

pub add_rule_law :
    (c : Text) (e : RuleExpr) (t : Table)
    → is_some (t.view c) ≡ true
    → true ≡ true
    → resolves t.view e ≡ true
    → (t' : Table) × (run_table (add_rule c e) t ≡ done t')
      × (t'.view ≡ update t.view c (some (rules_or_empty (t.view c) ++ (e ∷ []))))
add_rule_law c e t there _ known = (
  record t { view = update t.view c (some (rules_or_empty (t.view c) ++ (e ∷ []))) },
  rw (there, known),
  refl,
)

pub delete_law :
    (c : Text) (t : Table)
    → is_some (t.view c) ≡ true
    → ((d : Text) → any_refers c (rules_or_empty (t.view d)) ≡ false)
    → (t' : Table) × (run_table (delete_chain c) t ≡ done t') × (t'.view ≡ update t.view c none)
delete_law c t there free =
    (record t { view = update t.view c none }, rw (there, none_refers c t.view t.names free), refl)

pub base_law :
    (c spec : Text) (t : Table)
    → is_some (t.view c) ≡ false
    → (t' : Table) × (run_table (add_base_chain c spec) t ≡ done t')
      × (t'.view ≡ update t.view c (some []))
base_law c spec t missing = (add_to c t, refl, ap (λ o. update t.view c (some o)) (ground arith))

abbrev pub table_nft : Nftables
table_nft = record {
  Ruleset = Table;
  run = run_table;
  chain = λ t. t.view;
  accepts = λ _. true;
  list_table = list_table;
  add_table_law = λ t. (t, refl, refl);
  add_base_chain_law = base_law;
  add_chain_law = λ c t. (add_to c t, refl, refl);
  flush_chain_law = flush_law;
  add_rule_law = add_rule_law;
  delete_chain_law = delete_law;
}
