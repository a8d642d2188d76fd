-- ===== src/Nft.antt =====
-- The tool `nft`: its interface, and an instance of it in memory.
pub mod Table
mod Tool
pub use Tool.{
  Family, ip, ip6, RuleExpr, jump, statement, Command, table_name, View, update, rules_or_empty,
  refers, any_refers, resolves, Nftables,
}
pub use Tool.{add_table, add_base_chain, add_chain, flush_chain, delete_chain, add_rule}
unfoldable pub use Tool.{render}
