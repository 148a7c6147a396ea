-- ===== src/Tests/Fixtures.antt =====
-- The inputs that the tests share: a gateway that asks for a payment and then answers.
use solvela_go.Base.{Bytes, pos, true, false, Option, none, some, [], ◌∷◌, codes, bytes_eq}
use solvela_go.Errors.{ok}
use solvela_go.Types.Chat.{
  ChatMessage, ChatRequest, ChatResponse, ChatChunk, role_user, role_assistant, null,
}
use solvela_go.Types.Payment.{PaymentAccept, PaymentRequired, Resource, CostBreakdown}
use solvela_go.Wire.{PaymentAcceptWire, PaymentRequiredWire}
use solvela_go.Config.{ClientConfig, usdc_mint, solana_network}
use solvela_go.Url.{address}
use solvela_go.Http.{HttpOutcome, answered}
use solvela_go.Maps.{lookup}
use solvela_go.Library.{Library}
use solvela_go.Cache.{ResponseCache}
use solvela_go.Sessions.{SessionStore}
use solvela_go.Client.{SolvelaClient}
use solvela_go.Exec.{World, Environment}

abbrev pub gateway : Bytes
gateway = codes "https://api.solvela.ai"

abbrev pub config : ClientConfig
config = record {
  gateway_url = gateway;
  rpc_url = [];
  prefer_escrow = false;
  timeout = pos 180;
  expected_recipient = codes "Merchant";
  max_payment_amount = some 5_000;
  enable_cache = true;
  enable_sessions = true;
  session_ttl = pos 60;
  enable_quality_check = true;
  max_quality_retries = pos 1;
  free_fallback_model = [];
  balance_poll_interval = pos 0;
  balance_fetcher = none;
}

abbrev pub accept : PaymentAcceptWire
accept = record {
  scheme = codes "exact";
  network = solana_network;
  amount = codes "1000";
  asset = usdc_mint;
  pay_to = codes "Merchant";
  max_timeout_seconds = pos 60;
  escrow_program_id = none;
}

abbrev pub offer : PaymentAccept
offer = record {
  scheme = accept.scheme;
  network = accept.network;
  amount = accept.amount;
  asset = accept.asset;
  pay_to = accept.pay_to;
  max_timeout_seconds = accept.max_timeout_seconds;
  escrow_program_id = accept.escrow_program_id;
}

abbrev pub escrow_offer : PaymentAccept
escrow_offer = record offer { scheme = codes "escrow" }

abbrev resource : Resource
resource = record { url = []; method = codes "POST" }

abbrev costs : CostBreakdown
costs = record {
  provider_cost = [];
  platform_fee = [];
  total = [];
  currency = [];
  fee_percent = pos 5;
}

abbrev pub demand : PaymentRequired
demand = record {
  x402_version = pos 2;
  resource = resource;
  accepts = escrow_offer ∷ offer ∷ [];
  cost_breakdown = costs;
  error = [];
}

abbrev wire_demand : PaymentRequiredWire
wire_demand = record {
  x402_version = pos 2;
  resource = resource;
  accepts = accept ∷ [];
  cost_breakdown = costs;
  error = [];
}

abbrev pub said : Bytes → Bytes → ChatMessage
said role text = record {
  role = role;
  content = text;
  name = none;
  tool_calls = [];
  tool_call_id = none;
}

abbrev pub reply : Bytes → ChatResponse
reply text = record {
  id = codes "r1";
  object = [];
  created = pos 0;
  model = codes "m";
  choices = record { index = pos 0; message = said role_assistant text; finish_reason = none } ∷ [];
  usage = none;
}

abbrev pub request : ChatRequest
request = record {
  model = codes "m";
  messages = said role_user (codes "hello") ∷ [];
  max_tokens = none;
  temperature = none;
  top_p = none;
  stream = false;
  tools = [];
  tool_choice = none;
}

abbrev pub piece : Bytes → ChatChunk
piece text = record { id = text; object = []; created = pos 0; model = codes "m"; choices = [] }

-- Functions that stand for the standard library: the hash is the text, a response is its text.
abbrev pub lib : Library
lib = record {
  sha256 = λ s. s;
  parse_url = λ s. address (record { scheme = codes "https"; host = s; hostname = s });
  encode_request = λ r. ok r.model;
  encode_payload = λ p. ok p.accepted.pay_to;
  decode_response = λ s. ok (reply s);
  decode_required = λ s. ok wire_demand;
  decode_chunk = λ s. ok (piece s);
  decode_models = λ b. ok [];
  scan_lines = λ n b. (b.content ∷ [], none);
  decode_error = λ s. none;
}

-- It asks a request without a signature to pay, and answers one with a signature by the text.
abbrev serve : Bytes → Option Bytes → HttpOutcome
serve text none = answered (record { status = 402; body = record { content = []; fault = none } })
serve text (some signature) =
    answered (record { status = 200; body = record { content = text; fault = none } })

abbrev pub env : Bytes → Environment
env text = record {
  clock = λ h. 7;
  gateway = λ h req. serve text (lookup (codes "Payment-Signature") req.headers);
  context_done = λ h. false;
  signer = λ h req. ok (record {
    x402_version = pos 2;
    resource = req.resource;
    accepted = req.accepted;
    payload = null;
  });
}

abbrev pub client : SolvelaClient
client = record {
  config = config;
  has_signer = true;
  transport = record { base_url = gateway; timeout = pos 180 };
  session_salt = 1 ∷ 2 ∷ [];
}

abbrev pub cache : ResponseCache
cache = record {
  entries = [];
  order = [];
  max_entries = pos 2;
  ttl = pos 300;
  dedup_window = pos 2;
}

abbrev pub store : SessionStore
store = record { sessions = []; ttl = pos 60 }

abbrev pub world : World
world = record {
  cache = some cache;
  session_store = some store;
  last_balance = 0;
  last_balance_set = false;
  history = [];
}
