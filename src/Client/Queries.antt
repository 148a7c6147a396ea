-- ===== src/Client/Queries.antt =====
-- client.go: what a client can be asked besides a chat.
use solvela_go.Base.{Bool, List, [], ◌∷◌}
use solvela_go.Errors.{Message, lit, str}
use solvela_go.Types.Chat.{Float64}
use solvela_go.Wire.{ModelInfo}
use solvela_go.Library.{Library}
use solvela_go.Transport.{fetch_models}
use solvela_go.Client.{SolvelaClient}
use solvela_go.Client.Chat.{get_last_balance}
use solvela_go.Exec.{World, M, Environment}

-- `Models`
abbrev pub models : Library → Environment → SolvelaClient → M (List ModelInfo)
models lib env c = fetch_models lib env c.transport

-- `LastKnownBalance`
unfoldable pub last_known_balance : World → Float64 × Bool
unfolding get_last_balance
last_known_balance w = get_last_balance w

-- `String`
unfoldable pub client_text : SolvelaClient → Message
client_text c =
    lit "SolvelaClient(gateway=" ∷ str c.config.gateway_url ∷ lit ", wallet=REDACTED)" ∷ []
