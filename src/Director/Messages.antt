-- ===== src/Director/Messages.antt =====
-- The texts that the Slack surface sends: the `build…Message` functions of src/director/surface.ts.
use msrouter.Prelude.{ℕ, suc, [], ◌∷◌, ◌++◌, Text, text, Map, zero}
use msrouter.Routing.Entries.{decimal}
use msrouter.Director.Patches.{Patch, Risk, low, medium, high}
use msrouter.Director.Outbox.{Ruling, approved, rejected}
use msrouter.Director.Tracker.{ℤ, pos, negsuc, minus, TrackerSummary}

abbrev pub newline : Text
newline = 10 ∷ []

abbrev pub signed : ℤ → Text
signed (pos n) = decimal n
signed (negsuc n) = text "-" ++ decimal (suc n)

-- with the sign of a positive number
abbrev with_plus : ℤ → Text
with_plus (pos zero) = decimal 0
with_plus (pos (suc n)) = text "+" ++ decimal (suc n)
with_plus (negsuc n) = text "-" ++ decimal (suc n)

abbrev risk_text : Risk → Text
risk_text low = text "low"
risk_text medium = text "medium"
risk_text high = text "high"

abbrev ruling_text : Ruling → Text
ruling_text approved = text "approved"
ruling_text rejected = text "rejected"

-- each line with a line break before the next
abbrev override_lines : Map Text Text → Text → Text
override_lines [] rest = rest
override_lines ((k, v) ∷ m) rest =
    text "  " ++ (k ++ (text "=" ++ (v ++ (newline ++ override_lines m rest))))

unfoldable pub build_proposal_message : Patch → Text
build_proposal_message p =
    text "*Director Proposal* (risk: "
    ++ (risk_text p.risk
        ++ (text ")"
            ++ (newline
                ++ (text "Rationale: "
                    ++ (p.rationale
                        ++ (newline
                            ++ (newline
                                ++ (text "*Overrides to apply: *"
                                    ++ (newline
                                        ++ override_lines p.overrides (
                                            newline
                                            ++ (text "Reply `approve "
                                                ++ (p.id
                                                    ++ (text "` or `reject "
                                                        ++ (p.id ++ text "`"))))))))))))))

-- of a decision that comes without a reason
unfoldable pub build_decision_message : Text → Ruling → Text
build_decision_message id r =
    text "*Director Decision*: " ++ (ruling_text r ++ (text " on patch " ++ id))

unfoldable pub build_applied_message : Patch → Text
build_applied_message p =
    text "*Director Applied*: Patch " ++ (p.id ++ text " has been applied to the overrides file.")

-- the path of the log is a parameter
unfoldable pub build_restart_message : Text → ℕ → Text
build_restart_message log_path pid =
    text "*Director Restart*: Campaign restarted (PID: "
    ++ (decimal pid ++ (text "). Log: " ++ log_path))

unfoldable pub build_observation_message : TrackerSummary → Text
build_observation_message s =
    text "*Campaign Status*: "
    ++ (decimal s.submitted
        ++ (text "/"
            ++ (decimal s.target
                ++ (text " submitted ("
                    ++ (signed (minus s.target s.submitted)
                        ++ (text " to go)"
                            ++ (newline
                                ++ (text "_Counters: agent stats "
                                    ++ (decimal s.stats_submitted
                                        ++ (text " (drift "
                                            ++ (with_plus s.drift
                                                ++ (text ") | attempted: "
                                                    ++ (decimal s.attempted
                                                        ++ text
                                                            " | confirmed submissions are counted from the applications list_")))))))))))))
