-- ===== src/Agents/Tools/Selling.antt =====
-- mcp_tools.py, mcp_server.py and client.py: `ChainProviderTools.sign_offer`, over the agent's own
-- chainmcp. The signature of eth_account is the parameter `sign`, in hexadecimal digits, and the
-- random digits of the salt are the argument `token`.
pub mod Bounds
pub mod Asked
use a2a_tokenized_provisioni.Base.{ℕ, ◌*◌, ◌++◌, if◌then◌else◌}
use a2a_tokenized_provisioni.Base.Int.{ℤ, pos, negsuc}
use a2a_tokenized_provisioni.Base.Decimal.{Text, codes}
use a2a_tokenized_provisioni.Exec.{Result, ok, raised, validation_error}
use a2a_tokenized_provisioni.Interfaces.{ServiceNeed, Offer, SignedOffer}
use a2a_tokenized_provisioni.Interfaces.Fixtures.{zero_address, mock_tok, terms_hash}
use a2a_tokenized_provisioni.Interfaces.Patterns.{valid_offer, is_signature}
use a2a_tokenized_provisioni.Agents.Catalogue.{AbiEncode, service_for, window_of, encode_params}
use a2a_tokenized_provisioni.Agents.Consumer.{tok}
use a2a_tokenized_provisioni.Agents.Provider.{SignOffer}

module _ (abi : AbiEncode) (provider : Text) (sign : Offer → Text) (token : Text) where
  -- the fields of the offer at a price in whole tokens
  unfoldable pub offer_for : ServiceNeed → (price_tok : ℕ) → Offer
  unfolding service_for
  offer_for need price_tok = record {
    provider = provider;
    consumer = zero_address;
    service_type = (service_for need).service_type;
    resource_id = (service_for need).resource_id;
    params = encode_params abi need;
    start_time = (window_of need).start;
    end_time = (window_of need).end;
    payment_token = mock_tok;
    price = price_tok * tok;
    valid_until = (window_of need).end;
    salt = codes "0x" ++ token;
    terms_hash = terms_hash;
  }

  -- `client.sign_offer`, and the shape of what it returns
  unfoldable pub signed_by : Offer → Result SignedOffer
  signed_by offer =
      if is_signature (codes "0x" ++ sign offer)
      then ok (record { offer = offer; signature = codes "0x" ++ sign offer })
      else raised validation_error

  -- the shape of an offer refuses a price below zero, as its text has a sign
  unfoldable pub sign_offer : SignOffer
  unfolding offer_for signed_by
  sign_offer need (negsuc n) = raised validation_error
  sign_offer need (pos n) =
      let offer = offer_for need n in
      if valid_offer offer then signed_by offer else raised validation_error
