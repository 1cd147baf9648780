-- ===== src/Tests/Consoles.antt =====
-- Instances of the theorems on the console: a pipeline over a clock, and ticket #7.
use a2a_tokenized_provisioni.Base.{
  false, arith, text_beq, starts_with, ℕ, ◌+◌, ◌≡◌, refl, inl, true, some, [], ◌∷◌, nat_eq, text_eq,
}
use a2a_tokenized_provisioni.Base.Decimal.{codes}
use a2a_tokenized_provisioni.Exec.{ok, library_error, pure, raise}
use a2a_tokenized_provisioni.Dict
use a2a_tokenized_provisioni.Interfaces.{active}
use a2a_tokenized_provisioni.Interfaces.Fixtures.{bandwidth_need_7, canonical_signed_offer}
use a2a_tokenized_provisioni.Dashboard.{
  Pipeline, Console, provision, set_default, buy, activate_ticket, judge_offer, attempt,
}
use a2a_tokenized_provisioni.Base.Int.{pos}
use a2a_tokenized_provisioni.Agents.Catalogue.{demand}
use a2a_tokenized_provisioni.Agents.Ledger.{sum_units, swept, keep_live, holds_of}
use a2a_tokenized_provisioni.Agents.Provider.{QuoteModel}
use a2a_tokenized_provisioni.Dashboard.{contains, bell_negotiate}
use a2a_tokenized_provisioni.Dashboard.Overrules.{bell_negotiate-overrules}
use a2a_tokenized_provisioni.Tests.Sales.{signer, readings, port, port-Fits}
use a2a_tokenized_provisioni.Dashboard.Flow.{Ends, provision-Ends}

abbrev pipeline : Pipeline ℕ
pipeline = record {
  ensure_started = pure tt;
  negotiate = pure (inl canonical_signed_offer);
  decide = λ offer. pure true;
  fulfill_offer = λ offer. pure 7;
  show_ticket = λ id. pure tt;
  increase_time = λ now. (ok tt, now + 1800);
  challenge = λ id now. (
    ok (record { nonce = codes "n"; controller_id = codes "bw-ctrl-1"; expires_at = now + 300 }),
    now,
  );
  sign_proof = λ id challenge. pure (codes "0x");
  show_checks = λ id. pure tt;
  activate = λ id kind nonce signature now. (
    ok (record {
      session_id = codes "ent7-a0";
      entitlement_id = 7;
      state = active;
      since = now;
      expires_at = 1757952000;
    }),
    now,
  );
  show_enforcement = λ info. raise library_error;
}

abbrev console : Console ℕ
console = record { sessions = []; last_service = codes "bandwidth"; rest = 1757943120 }

-- The session stays though the router cannot be shown.
provisioned-kept :
    (provision pipeline (codes "bandwidth") console).1.sessions ≡ (7, some (codes "ent7-a0")) ∷ []
unfolding provision attempt judge_offer buy activate_ticket set_default Dict.put Dict.get
provisioned-kept = refl

provision-Ends_example :
    let (r, c') = provision pipeline (codes "bandwidth") console in
    (r ≡ ok tt)
    × Ends pipeline (codes "bandwidth") (pipeline.ensure_started console.rest).1 [] c'.sessions
provision-Ends_example = provision-Ends pipeline (codes "bandwidth") console refl

-- Bell's model declines, and says that it could not price.
abbrev shy : QuoteModel
shy = λ need list_price_tok.
    ok (record { quote = false; price_tok = pos 0; reason = codes "could not price this demand" })

bell_negotiate-overrules_example :
    (bell_negotiate signer readings readings bandwidth_need_7 (some shy) port).0
    ≡ ok (inl canonical_signed_offer)
unfolding contains starts_with text_beq sum_units swept keep_live holds_of Dict.get demand
bell_negotiate-overrules_example =
    bell_negotiate-overrules shy signer readings readings bandwidth_need_7 port
      (record { quote = false; price_tok = pos 0; reason = codes "could not price this demand" })
      canonical_signed_offer port-Fits (omega arith) (omega arith) refl refl refl refl
