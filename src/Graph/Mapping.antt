-- ===== src/Graph/Mapping.antt =====
-- What the mapping of Graph errors promises, src/modules/connections/graph/graph-error.mapper.ts.
use wh_api_unified_service.Prelude.{
  ◌<◌, String, arith, false, some, str_eq_refl, true, ℕ, ◌↔◌, ◌≡◌, ◌≢◌, ◌≤◌, ◌⊎◌,
}
use wh_api_unified_service.Graph.{
  GraphApiError, channel_reauth_required, equals, from_schema, from_transport, is_ambiguous_failure,
  is_dead_token, is_rate_limit, map_graph_error, messaging_window_closed_subcode, temporary_issue,
  upstream_contract_changed, upstream_rate_limited,
}

-- The three verdicts never contradict each other, for any error: a dead credential is never retried
-- and is the only reason to ask for a new one, and a rate limit always is retried.
pub verdicts_agree :
    (e : GraphApiError)
    → (((map_graph_error e).requires_reauth ≡ true)
        ↔ ((map_graph_error e).code ≡ channel_reauth_required))
      × ((map_graph_error e).requires_reauth ≡ true → (map_graph_error e).retryable ≡ false)
      × ((map_graph_error e).code ≡ upstream_rate_limited → (map_graph_error e).retryable ≡ true)
unfolding map_graph_error
verdicts_agree e = ground arith

-- An error is retried exactly when nothing was heard of the call, or the messaging window is not said
-- to be closed, the token is not dead, and it is a rate limit, a temporary issue or a server error.
retryable_iff :
    (e : GraphApiError)
    → ((map_graph_error e).retryable ≡ true) ↔ (
        (e.http_status ≡ 0)
        ⊎ ((equals e.subcode messaging_window_closed_subcode ≡ false)
            × (is_dead_token e ≡ false)
            × ((is_rate_limit e ≡ true)
                ⊎ ((e.code ≡ some temporary_issue) ⊎ (500 ≤ e.http_status)))))
unfolding map_graph_error
retryable_iff e = ground arith

-- An error is reported as a rate limit exactly when a response arrived, the messaging window is not
-- said to be closed, the token is not dead, and its code is one of the four limits or in the business
-- range, or its subcode is the throttling one.
pub rate_limited_iff :
    (e : GraphApiError)
    → ((map_graph_error e).code ≡ upstream_rate_limited) ↔ (
        (e.http_status ≢ 0)
        × (equals e.subcode messaging_window_closed_subcode ≡ false)
        × (is_dead_token e ≡ false)
        × ((e.code ≡ some 4)
            ⊎ ((e.code ≡ some 17)
                ⊎ ((e.code ≡ some 32)
                    ⊎ ((e.code ≡ some 613)
                        ⊎ (((n : ℕ) × (e.code ≡ some n) × (80000 ≤ n) × (n ≤ 80099))
                            ⊎ (e.subcode ≡ some 2446079)))))))
unfolding map_graph_error is_rate_limit
rate_limited_iff e = ground arith

-- What our own client reports: a response of unexpected shape, with a status that is neither 0 nor a
-- server error, is final, asks for no new credential and is not ambiguous; a call that got no response
-- is retryable and ambiguous.
pub own_errors_are_mapped :
    (status : ℕ) (path detail : String)
    → 0 < status
    → status < 500
    → (map_graph_error (from_schema status path detail)
        ≡ record { code = upstream_contract_changed; requires_reauth = false; retryable = false })
      × (is_ambiguous_failure (from_schema status path detail) ≡ false)
      × ((map_graph_error (from_transport detail)).retryable ≡ true)
      × (is_ambiguous_failure (from_transport detail) ≡ true)
unfolding map_graph_error is_rate_limit is_ambiguous_failure
own_errors_are_mapped status path detail low high = ground (arith, str_eq_refl "schema")
