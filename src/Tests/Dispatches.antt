-- ===== src/Tests/Dispatches.antt =====
-- The theorem on the dispatch at a request for the agent's capabilities.
use pact_passport.Base.{refl}
use pact_passport.Json.{end}
use pact_passport.Message.{PactMessage}
use pact_passport.Message.Dicts.{message_to_dict}
use pact_passport.Message.Dicts.RoundTrip.{message_round_trip}
use pact_passport.Visa.{tracker_start}
use pact_passport.Agent.Dispatch.{dispatch}
use pact_passport.Agent.Dispatch.Open.{Answers, dispatch-Answers}
use pact_passport.Tests.Toy.{toy, toy-IsLawful}
use pact_passport.Tests.Agents.{bob, env, loaded, request_of_alice}
use pact_passport.Tests.VisaRequests.{gate}

abbrev discovering : PactMessage
discovering = record request_of_alice { intent = "discover" }

dispatch-Answers_example :
    Answers toy toy-IsLawful bob env gate end "net" 7
      (dispatch toy bob env gate end "net" 7 (message_to_dict discovering) tracker_start loaded)
      "ok"
      tracker_start
      loaded
dispatch-Answers_example =
    dispatch-Answers toy toy-IsLawful bob env gate end "net" 7 (message_to_dict discovering)
      discovering tracker_start loaded (message_round_trip discovering) refl refl refl
