-- ===== src/Firewall/Names.antt =====
-- The names and the rule texts of wiregui/services/firewall.py.
use wiregui.Base.{
  ◌&&◌, Option, none, some, List, [], ◌∷◌, ◌++◌, Text, codes, contains, without, take, join, truthy,
  text_or_empty, words, strip, split, starts_with, add, if◌then◌else◌,
}
use wiregui.Nft.{Family, ip, ip6}

-- `_user_chain_name`: the first 12 characters of the id without its hyphens.
unfoldable pub user_chain_name : Text → Text
user_chain_name user_id = codes "user_" ++ take 12 (without b'-' user_id)

-- The family that a colon in an address or a subnet decides.
unfoldable pub family_of : Text → Family
family_of addr = if contains b':' addr then ip6 else ip

daddr : Text → Text
daddr destination =
    if contains b':' destination
    then codes "ip6 daddr " ++ destination
    else codes "ip daddr " ++ destination

-- `_build_rule_expr`
unfoldable pub build_rule_expr : Text → Text → Option Text → Option Text → Text
unfolding daddr
build_rule_expr destination action port_type port_range = join (codes " ") (
    daddr destination
    ∷ ((if truthy port_type && truthy port_range
          then (text_or_empty port_type ++ (codes " dport " ++ text_or_empty port_range)) ∷ []
          else [])
        ++ (action ∷ [])))

-- The second word of a line, `line.split()[1]`.
second_word : List Text → Text
second_word (a ∷ b ∷ rest) = b
second_word (a ∷ []) = []
second_word [] = []

-- The name that one line of the listing adds.
unfoldable pub chain_of_line : List Text → Text → List Text
unfolding second_word
chain_of_line found line =
    if starts_with (codes "chain user_") (strip line)
    then add (second_word (words (strip line))) found
    else found

unfoldable pub chains_in : List Text → List Text → List Text
unfolding chain_of_line
chains_in found [] = found
chains_in found (line ∷ lines) = chains_in (chain_of_line found line) lines

-- `_list_user_chains`, of the output of `nft list table`; a failed call gives no chain.
unfoldable pub list_user_chains : Option Text → List Text
unfolding chains_in
list_user_chains none = []
list_user_chains (some output) = chains_in [] (split 10 output)
