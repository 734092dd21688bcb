-- ===== src/Pdelay/Stray.antt =====
-- A stray response, and a follow-up before its response, on a link of 500 ns
-- (time_sync/md_pdelay_req_sm.c).
use ziggo_caa_s_switch.Prelude.{◌≡◌, refl, replicate, Bool, true, false}
use ziggo_caa_s_switch.Ptp.Quotient.{uscaledns_div, scale_loop, limbs, compare_array, double_array}
use ziggo_caa_s_switch.Ptp.ScaledNs.{
  UScaledNs, uscaledns_subtract, uscaledns_compare, uscaledns_ptpmsgtimestamp,
  ptpmsgtimestamp_uscaledns, from_columns, uscaledns_divide_by_2, uscaledns_mul,
}
use ziggo_caa_s_switch.Frame.{
  ptp_msg_header_template, set_ptp_frame_header, get_ptp_msg_header, htons, ntohs, htonl, htonll,
  ntohl, ntohll,
}
use ziggo_caa_s_switch.Pdelay.Messages.{PtpMsgPdelayResp, port_identity_equal, same_clock}
use ziggo_caa_s_switch.Pdelay.Frames.{
  recv_pdelay_req, recv_pdelay_resp, recv_pdelay_resp_follow_up, frame_pdelay_resp,
  frame_pdelay_resp_follow_up,
}
use ziggo_caa_s_switch.Pdelay.Request.{
  MdPdelayReqSm, set_pdelay_req, compute_prop_time, send_pdelay_req, initial_send_pdelay_req,
  all_state_transition, not_enabled_state_transition, initial_send_pdelay_req_state_transition,
  tx_pdelay_req, waiting_for_pdelay_resp, is_response_to, compute_pdelay_rate_ratio,
  is_follow_up_to, judge_response, md_pdelay_add_resp_and_resp_follow_up_timestamp, reset_action,
  send_pdelay_req_state_transition, update_mean_link_delay, update_rate_ratio,
}
use ziggo_caa_s_switch.Pdelay.Request.Actions.{
  is_due, initial_send_pdelay_req_action, frame_of, waiting_for_pdelay_resp_state_transition,
  answered, free_messages, is_followed_up, is_repeated, leave_interval, measure, release,
  reset_state_transition, send_pdelay_req_action, waiting_for_pdelay_interval_timer_action,
  waiting_for_pdelay_interval_timer_state_transition,
  waiting_for_pdelay_resp_follow_up_state_transition,
}
use ziggo_caa_s_switch.Pdelay.Request.Machine.{
  run_state, round, run_loop, md_pdelay_req_sm_run, md_pdelay_req_sm_txts,
  md_pdelay_req_sm_recv_resp, md_pdelay_req_sm_recv_resp_follow_up,
}
use ziggo_caa_s_switch.Pdelay.Request.Reachable.{Event, tick, txts, resp, resp_follow_up, handle}
use ziggo_caa_s_switch.Pdelay.Agreement.{received_response, received_follow_up}
use ziggo_caa_s_switch.Pdelay.Samples.{ns, requester, responder, stamp, stamped}
use ziggo_caa_s_switch.Ptp.Doubles.{
  fraction_bits, is_off_one, round_up, uscaledns_double, uscaledns_mul_double,
}
use ziggo_caa_s_switch.Ptp.Priority.{memcmp}
use ziggo_caa_s_switch.Pdelay.Response.{set_pdelay_resp, set_pdelay_resp_follow_up}
use ziggo_caa_s_switch.Pdelay.Request as Request

-- The response, with another sequence id.
abbrev stray : PtpMsgPdelayResp
stray =
    record (received_response (record requester { pdelay_req_sequence_id = 7 }) responder
      (ns 700500) (ns 701500)) {
        requesting_port_identity = record { clock_identity = replicate 8 1; port_number = 1 };
      }

-- A stray response while the machine waits for the follow-up is remembered. The follow-up frees it, and
-- the next interval reads it.
abbrev after : Request.Outcome → UScaledNs → Event → Request.Outcome
after (Request.done sm frames) ts e = handle 0 ts e sm
after o ts e = o

stray_test :
    after
      (after
        (after
          (after
            (handle 0
              (ns 5000)
              (resp (stamp 3000) (received_response requester responder (ns 700500) (ns 701500)))
              stamped)
            (ns 5000)
            (resp (stamp 3000) stray))
          (ns 5000)
          (resp_follow_up (received_follow_up requester responder (ns 700500) (ns 701500))))
        (ns 2000000000)
        tick)
      (ns 2000000000)
      (txts (record { ts = ns 2000000000; sequence_id = 0; msg_type = 2 }))
    ≡ Request.undefined
unfolding handle md_pdelay_req_sm_recv_resp md_pdelay_req_sm_run run_loop round run_state
    all_state_transition waiting_for_pdelay_resp_state_transition is_due uscaledns_compare
    uscaledns_subtract is_response_to recv_pdelay_resp get_ptp_msg_header ntohs frame_pdelay_resp
    set_ptp_frame_header htonl htonll htons ntohl ntohll ptp_msg_header_template port_identity_equal
    same_clock answered frame_of free_messages initial_send_pdelay_req_action is_followed_up
    is_repeated leave_interval measure release reset_state_transition send_pdelay_req_action
    waiting_for_pdelay_interval_timer_action waiting_for_pdelay_interval_timer_state_transition
    waiting_for_pdelay_resp_follow_up_state_transition md_pdelay_req_sm_recv_resp_follow_up
    md_pdelay_req_sm_txts compute_pdelay_rate_ratio compute_prop_time
    initial_send_pdelay_req_state_transition is_follow_up_to judge_response
    md_pdelay_add_resp_and_resp_follow_up_timestamp not_enabled_state_transition reset_action
    send_pdelay_req_state_transition set_pdelay_req tx_pdelay_req update_mean_link_delay
    update_rate_ratio fraction_bits is_off_one round_up uscaledns_double uscaledns_mul_double memcmp
    from_columns uscaledns_divide_by_2 uscaledns_mul uscaledns_ptpmsgtimestamp
    recv_pdelay_resp_follow_up frame_pdelay_resp_follow_up ptpmsgtimestamp_uscaledns set_pdelay_resp
    set_pdelay_resp_follow_up recv_pdelay_req
stray_test = refl

-- The requester of the second exchange.
abbrev second : MdPdelayReqSm
second = record requester { pdelay_req_sequence_id = 0 }

abbrev is_stuck : Request.Outcome → Bool
is_stuck (Request.stuck sm) = true
is_stuck o = false

-- In the second exchange, the follow-up comes before its response: the time of arrival of the first
-- response is added again, and the division by 0 does not return.
early_follow_up_test :
    is_stuck (
      after
        (after
          (after
            (after
              (after
                (handle 0
                  (ns 5000)
                  (resp
                    (stamp 3000)
                    (received_response requester responder (ns 700500) (ns 701500)))
                  stamped)
                (ns 5000)
                (resp_follow_up (received_follow_up requester responder (ns 700500) (ns 701500))))
              (ns 2000000000)
              tick)
            (ns 2000000000)
            (txts (record { ts = ns 2000000000; sequence_id = 0; msg_type = 2 })))
          (ns 2000000000)
          (resp_follow_up (received_follow_up second responder (ns 2000700500) (ns 2000701500))))
        (ns 2000000000)
        (resp
          (stamp 2000003000)
          (received_response second responder (ns 2000700500) (ns 2000701500))))
    ≡ true
unfolding handle md_pdelay_req_sm_recv_resp md_pdelay_req_sm_run run_loop round run_state
    all_state_transition waiting_for_pdelay_resp_state_transition is_due uscaledns_compare
    uscaledns_subtract is_response_to recv_pdelay_resp get_ptp_msg_header ntohs frame_pdelay_resp
    set_ptp_frame_header htonl htonll htons ntohl ntohll ptp_msg_header_template port_identity_equal
    same_clock answered frame_of free_messages initial_send_pdelay_req_action is_followed_up
    is_repeated leave_interval measure release reset_state_transition send_pdelay_req_action
    waiting_for_pdelay_interval_timer_action waiting_for_pdelay_interval_timer_state_transition
    waiting_for_pdelay_resp_follow_up_state_transition md_pdelay_req_sm_recv_resp_follow_up
    md_pdelay_req_sm_txts compute_pdelay_rate_ratio compute_prop_time
    initial_send_pdelay_req_state_transition is_follow_up_to judge_response
    md_pdelay_add_resp_and_resp_follow_up_timestamp not_enabled_state_transition reset_action
    send_pdelay_req_state_transition set_pdelay_req tx_pdelay_req update_mean_link_delay
    update_rate_ratio fraction_bits is_off_one round_up uscaledns_double uscaledns_mul_double memcmp
    from_columns uscaledns_divide_by_2 uscaledns_mul uscaledns_ptpmsgtimestamp
    recv_pdelay_resp_follow_up frame_pdelay_resp_follow_up ptpmsgtimestamp_uscaledns set_pdelay_resp
    set_pdelay_resp_follow_up recv_pdelay_req uscaledns_div scale_loop limbs compare_array
    double_array
early_follow_up_test = refl
