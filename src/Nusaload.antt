-- ===== src/Nusaload.antt =====
-- tools/nusaload/src/main.rs: the control tool, which only prints so far.
use nusa_launchd.Shared.{String, Option, List, [], ◌∷◌}
use nusa_launchd.Text.{concat}
use nusa_launchd.Job.Config.{or_else}

pub data Commands : Type 0 where
  connect : String → Commands
  help : Commands

-- The socket of `connect`, when the option may be left out.
unfoldable pub read_socket : Option String → String
read_socket socket = or_else socket "/run/nusalaunchd/control.sock"

-- The lines that the tool prints.
unfoldable pub printed : Commands → List String
printed (connect socket) =
    concat ("Connecting to socket: " ∷ socket ∷ [])
    ∷ "(Control tool implementation coming in Week 3-4)"
    ∷ []
printed help =
    "NusaLaunchd Control Tool (nusaload)" ∷ "" ∷ "Available commands:"
    ∷ "  connect    - Connect to NusaLaunchd daemon" ∷ "  help       - Show this help message" ∷ ""
    ∷ "Note: Full control tool implementation will be completed in Week 3-4" ∷ []
