-- ===== src/Tests/Refusals.antt =====
-- An instance of the theorem on the names of reverts: the contract knows no such token.
use a2a_tokenized_provisioni.Base.{
  ◌≡◌, List, [], ◌∷◌, ◌++◌, ◌==◌, if◌then◌else◌, replicate, text_eq, nat_eq, arith,
}
use a2a_tokenized_provisioni.Base.Decimal.{Text, codes}
use a2a_tokenized_provisioni.Exec.{ok, raised, key_error, chain_revert}
use a2a_tokenized_provisioni.Interfaces.{Bytes}
use a2a_tokenized_provisioni.Chainmcp.Client.{nonexistent}
use a2a_tokenized_provisioni.Chainmcp.Reverts.{
  AbiEntry, error, other, error_selectors, reverts, revert_name, owner_of, receipt_of,
}
use a2a_tokenized_provisioni.Chainmcp.Reverts.Names.{answered, name_of_selector, reverts-named}

abbrev hashes : Text → Bytes
hashes text =
    if text == codes "ERC721NonexistentToken(uint256)"
    then 126 ∷ 39 ∷ 50 ∷ 137 ∷ replicate 28 0
    else replicate 32 1

abbrev abis : List (List AbiEntry)
abis =
    (other ∷ error nonexistent (codes "uint256" ∷ []) ∷ error (codes "NotIssuer") [] ∷ [])
    ∷ (error (codes "ERC20InvalidSender") (codes "address" ∷ []) ∷ [])
    ∷ []

abbrev token : Text
token = replicate 63 b'0' ++ b'9' ∷ []

reverts-named_example :
    let errors = error_selectors hashes abis in
    let err = answered hashes abis 126 39 50 137 token (codes "reverted") in
    let name = name_of_selector hashes abis 126 39 50 137 token (codes "reverted") in
    (revert_name errors err ≡ ok name)
    × (receipt_of errors (reverts err) ≡ raised (chain_revert name))
    × (owner_of errors (reverts err)
        ≡ (if name == nonexistent then raised key_error else raised (chain_revert name)))
reverts-named_example =
    reverts-named hashes abis 126 39 50 137 token (codes "reverted")
      (omega arith, omega arith, omega arith, omega arith)
