-- ===== src/Pdelay/Examples.antt =====
-- The theorems on the peer delay machines, on a link of 500 ns.
use ziggo_caa_s_switch.Prelude.{
  ℕ, ◌≡◌, refl, arith, inl, inr, [], ◌∷◌, false, if◌then◌else◌, ◌*◌, ◌<◌, ◌^◌,
}
use ziggo_caa_s_switch.Ptp.ScaledNs.{uscaledns_subtract, uscaledns_compare}
use ziggo_caa_s_switch.Ptp.ScaledNs.Value.{value, InWidth}
use ziggo_caa_s_switch.Frame.{
  ptp_msg_header_template, set_ptp_frame_header, get_ptp_msg_header, htons, ntohs,
}
use ziggo_caa_s_switch.Pdelay.Frames.{
  recv_pdelay_req, recv_pdelay_resp, recv_pdelay_resp_follow_up, PtpFramePdelayResp,
  PtpFramePdelayRespFollowUp,
}
use ziggo_caa_s_switch.Pdelay.Request.{
  MdPdelayReqSm, set_pdelay_req, compute_prop_time, all_state_transition,
  not_enabled_state_transition, initial_send_pdelay_req_state_transition, tx_pdelay_req,
  waiting_for_pdelay_resp,
}
use ziggo_caa_s_switch.Pdelay.Request.Validity.{IsValid}
use ziggo_caa_s_switch.Pdelay.Request.Actions.{
  is_due, initial_send_pdelay_req_action, frame_of, waiting_for_pdelay_resp_state_transition,
}
use ziggo_caa_s_switch.Pdelay.Request.Machine.{
  run_state, round, run_loop, md_pdelay_req_sm_run, md_pdelay_req_sm_txts, init_md_pdelay_req_sm,
}
use ziggo_caa_s_switch.Pdelay.Request.PropTime.{map_value, mean_delay, compute_prop_time-mean_delay}
use ziggo_caa_s_switch.Pdelay.Request.Late.{Requests}
use ziggo_caa_s_switch.Pdelay.Request.Timer.{md_pdelay_req_sm_run-Requests}
use ziggo_caa_s_switch.Pdelay.Request.Exchange.{Measures, exchange}
use ziggo_caa_s_switch.Pdelay.Request.Reachable.{
  Reachable, started, handled, txts, resp, handle, Ends, Reachable-Ends,
}
use ziggo_caa_s_switch.Pdelay.Response.{
  initial_waiting_for_pdelay_req, init_md_pdelay_resp_sm, md_pdelay_resp_sm_run, MdPdelayRespSm,
  waiting_for_pdelay_req, follow_up, done, undefined, md_pdelay_resp_sm_recv_req,
  md_pdelay_resp_sm_txts,
}
use ziggo_caa_s_switch.Pdelay.Response.Serving.{◌then◌, recv_req-overtakes}
use ziggo_caa_s_switch.Pdelay.Agreement.{Named, received_request, received_response}
use ziggo_caa_s_switch.Pdelay.Link.{link-Measures}
use ziggo_caa_s_switch.Pdelay.Samples.{
  ns, memory, requester, responder, stamp, initialised, stamped,
}
use ziggo_caa_s_switch.Pdelay.Response as Response
use ziggo_caa_s_switch.Pdelay.Response.Ending as Ending
use ziggo_caa_s_switch.Pdelay.Response.Reached as Reached
use ziggo_caa_s_switch.Pdelay.Response.Reached.{Reached, recv_req, Reached-Ends}

is_due_early : is_due (ns 5000) initialised ≡ false
unfolding is_due uscaledns_subtract uscaledns_compare
is_due_early = refl

named :
    Named requester.instance_global.this_clock requester.port.this_port
      requester.pdelay_req_sequence_id
named = record { clock_length = refl; port_lt = omega arith; sequence_lt = omega arith }

fits : (n : ℕ) → n < 2 ^ 64 → InWidth (ns n)
fits n h = record { subns_lt = omega arith; nsec_lt = h; msb_lt = omega arith }

link-Measures_example :
    (s : MdPdelayRespSm) × (fr : PtpFramePdelayResp) × (fu : PtpFramePdelayRespFollowUp)
    × ((md_pdelay_resp_sm_recv_req (stamp 700500) (received_request initialised) responder
          then md_pdelay_resp_sm_txts (stamp 701500))
        ≡ done s (Response.resp 2 fr ∷ follow_up 2 fu ∷ []))
    × Measures (500 * 65536) (
        exchange 0
          (ns 5000)
          (stamp 1000)
          (ns 5000)
          (stamp 3000)
          (recv_pdelay_resp fr)
          (ns 5000)
          (recv_pdelay_resp_follow_up fu)
          initialised)
unfolding set_pdelay_req
link-Measures_example =
    link-Measures initialised responder (500 * 65536) (stamp 1000) (stamp 700500) (stamp 701500)
      (stamp 3000) named (omega arith) 0 (ns 5000) (ns 5000) (ns 5000)
      (record {
        sending = inr (refl, refl);
        request = refl;
        no_response = refl;
        no_follow_up = refl;
        not_begin = refl;
        operational = refl;
        enabled = refl;
        no_asymmetry = refl;
        ratio_one = refl;
        ratio_computed = refl;
        empty = refl;
        head = refl;
        tail = refl;
        delay_computed = refl;
      })
      (record {
        waiting = inl (refl, refl);
        no_stamp = refl;
        enabled = refl;
        operational = refl;
        not_begin = refl;
      })
      refl refl
      (record {
        fits1 = fits 1000 (omega arith);
        fits4 = fits 3000 (omega arith);
        seconds2 = omega arith;
        seconds3 = omega arith;
        within = omega arith;
        delay = refl;
      })
      is_due_early is_due_early is_due_early

-- The machine with its four time stamps.
abbrev measured : MdPdelayReqSm
measured = record memory { t1 = ns 1000; t2 = ns 700500; t3 = ns 701500; t4 = ns 3000 }

compute_prop_time-mean_delay_example :
    map_value (compute_prop_time measured)
    ≡ mean_delay (value (ns 1000)) (value (ns 700500)) (value (ns 701500)) (value (ns 3000))
compute_prop_time-mean_delay_example =
    compute_prop_time-mean_delay measured
      (record {
        fits1 = fits 1000 (omega arith);
        fits2 = fits 700500 (omega arith);
        fits3 = fits 701500 (omega arith);
        fits4 = fits 3000 (omega arith);
        no_msb2 = refl;
        no_msb3 = refl;
        within = omega arith;
      })
      refl

-- The machine waits for a response.
abbrev waiting : MdPdelayReqSm
waiting = record requester { state = waiting_for_pdelay_resp; last_state = waiting_for_pdelay_resp }

waiting-IsValid : IsValid waiting
waiting-IsValid = record {
  request = λ e. refl;
  response = λ e h. absurd (ground arith);
  follow_up = λ e h. absurd (ground arith);
  answered = λ e. absurd (ground arith);
  followed = λ e. absurd (ground arith);
  taken = λ e. absurd (ground arith);
  sent = λ e. absurd (ground arith);
  repeated = λ e h. absurd (ground arith);
  head_lt = omega arith;
  tail_lt = omega arith;
  ingress_length = refl;
  responder_length = refl;
}

md_pdelay_req_sm_run-Requests_example :
    Requests (ns 1000000000) waiting (md_pdelay_req_sm_run 0 (ns 1000000000) waiting)
md_pdelay_req_sm_run-Requests_example =
    md_pdelay_req_sm_run-Requests 0 (ns 1000000000) waiting waiting-IsValid refl (inl refl) refl
      refl refl
      (record {
        now_fits = fits 1000000000 (omega arith);
        timer_fits = fits 0 (omega arith);
        interval_fits = fits 1000000000 (omega arith);
        passed = omega arith;
      })

initialised-Reachable : Reachable initialised
unfolding init_md_pdelay_req_sm md_pdelay_req_sm_run run_loop round run_state all_state_transition
    not_enabled_state_transition initial_send_pdelay_req_action
    initial_send_pdelay_req_state_transition frame_of tx_pdelay_req set_pdelay_req
initialised-Reachable = started 65535 memory refl refl refl

stamped-Reachable : Reachable stamped
unfolding handle md_pdelay_req_sm_txts md_pdelay_req_sm_run run_loop round run_state
    all_state_transition initial_send_pdelay_req_state_transition
    waiting_for_pdelay_resp_state_transition is_due uscaledns_subtract uscaledns_compare
    set_pdelay_req
stamped-Reachable = handled 0 (ns 5000) (txts (stamp 1000)) initialised-Reachable tt refl

Reachable-Ends_example : Ends (
    handle 0
      (ns 5000)
      (resp (stamp 3000) (received_response requester responder (ns 700500) (ns 701500)))
      stamped)
Reachable-Ends_example =
    Reachable-Ends 0 (ns 5000)
      (resp (stamp 3000) (received_response requester responder (ns 700500) (ns 701500)))
      stamped-Reachable (λ e. absurd (ground arith))

-- A second request, with the same sequence id, comes before the time stamp of the first response.
recv_req-overtakes_example :
    (md_pdelay_resp_sm_recv_req (stamp 700500) (received_request requester) responder
      then md_pdelay_resp_sm_recv_req (stamp 700900) (received_request requester)
      then md_pdelay_resp_sm_txts (stamp 701500))
    ≡ undefined
unfolding recv_pdelay_req get_ptp_msg_header ntohs set_ptp_frame_header htons set_pdelay_req
    ptp_msg_header_template
recv_req-overtakes_example =
    recv_req-overtakes (received_request requester) (received_request requester) (stamp 700500)
      (stamp 700900) (stamp 701500) responder
      (record {
        waiting = inl (refl, refl);
        no_stamp = refl;
        enabled = refl;
        operational = refl;
        not_begin = refl;
      })
      refl

-- The responder after its initialisation.
abbrev started_responder : MdPdelayRespSm
started_responder = record responder {
  state = initial_waiting_for_pdelay_req;
  last_state = initial_waiting_for_pdelay_req;
}

responder-Reached : Reached started_responder
unfolding init_md_pdelay_resp_sm md_pdelay_resp_sm_run Response.run_loop Response.round
    Response.run_state Response.all_state_transition Response.not_enabled_state_transition
    Response.initial_waiting_for_pdelay_req_state_transition
responder-Reached = Reached.started responder refl

Reached-Ends_example :
    Ending.Ends
      (Reached.handle (recv_req (stamp 700500) (received_request requester)) started_responder)
Reached-Ends_example =
    Reached-Ends (recv_req (stamp 700500) (received_request requester)) responder-Reached refl
