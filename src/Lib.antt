-- ===== src/Lib.antt =====
-- Ziggo CaaS switch: the control software of a time-sensitive network.
--
-- The software has two programs. Software/Time-Synchronization runs on the switch: a thread takes
-- PTP frames from the DMA into a queue (BufferQueue), and the main loop hands them to the state
-- machines of IEEE 802.1AS. The best-master-clock machines (Bmca) share the per-instance and per-
-- port state (Ptp.Globals): PortAnnounceInformation turns the announcements that a port receives
-- into its priority vector and asks for a new choice; PortStateSelection then chooses the
-- grandmaster and the role of each port, and asks the ports for updates; PortAnnounceTransmit
-- announces the result on the master ports. Where the roles are set from outside,
-- PortAnnounceInformationExt takes the place of the former. On each port MDPdelayReq measures the
-- delay of the link and MDPdelayResp answers the neighbour (Pdelay), MDSyncSend sends it the time
-- and MDSyncReceive takes it from there (Sync), by messages whose frames are in network order
-- (Frame). At the start, the gate control lists are made from the schedule of the time-triggered
-- streams (GateControl). Software/Packetized-PLC-IO is a PLC runtime whose image tables the
-- Modbus/TCP server (Modbus) reads and writes.
--
-- Parts and files. Prelude: tests on native numbers, lists with positions, single-bit masks.
-- Ptp.ScaledNs: the type UScaledNs and its arithmetic (tsn_drivers/ptp_types.c), with Value for
-- the 96-bit number that it stands for and Product for its multiplication. Ptp.Priority: the
-- priority vectors of the same file and compare_priority_vectors; Memcmp, Order and Fields relate
-- it to the order of bytes and of fields. Ptp.Doubles: the non-negative finite doubles, as exact
-- fractions, and uscaledns_double; Rounding says what it rounds to. Ptp.Quotient: compare_array
-- and uscaledns_div, whose arrays are numbers by Arrays, and when it returns in Returns. Frame:
-- time_sync/msg_frame.c and the message header of tsn_drivers/ptp_types.c. Pdelay.Messages and
-- Pdelay.Frames: the peer delay messages and what txPdelayResp, txPdelayRespFollowUp and
-- recv_ptp_frame (eth_frame.c) do with them. Pdelay.Request: time_sync/md_pdelay_req_sm.c, with
-- the actions that read pointers in Actions and the loop in Machine; Validity says when its
-- pointers fit its state, Measuring and Safety that each round keeps that, Reachable what the
-- events of the main loop reach; Steps, Measured, Calls and Exchange follow one exchange,
-- PropTime is the time it measures, and Late and Timer the next request. Pdelay.Response:
-- time_sync/md_pdelay_resp_sm.c, with Ending for its valid machines and its loop, Reached for the
-- events of the main loop, and Serving for what it answers. Agreement and Link put the two
-- machines at the ends of one link. Sync.Messages: the sync message and its follow-up; Sync.Send:
-- time_sync/md_sync_send_sm.c, with the calls that reach it in Events, what it sends in Sending
-- and Following, its safety in Safety and the end of its sequence ids in Wrapping; Sync.Receive:
-- time_sync/md_sync_receive_sm.c, with Events, Safety and Receiving; Sync.Link puts the two
-- machines at the ends of one link. Bmca.StateSelection: the functions of
-- time_sync/port_state_selection_sm.c by the names of the source (updtStatesTree is
-- updt_states_tree); Machine is its loop. Bmca.AnnounceInfo: the same for
-- time_sync/port_announce_information_sm.c, and Bmca.AnnounceTransmit for
-- time_sync/port_announce_transmit_sm.c and Bmca.AnnounceInfoExt for
-- time_sync/port_announce_information_ext_sm.c. BufferQueue: dma_proxy/buffer_queue.c.
-- GateControl: apply_gcl of topo.cpp; Points are the time points that it collects, Sorted its
-- sorting, Table the list that it writes, Gates and Schedule what the gates then do. Modbus: the
-- handlers of Software/Packetized-PLC-IO/modbus.cpp over the tables of ladder.h; Memory has the
-- two ladders of register accesses, Requests and WriteMultiple the handlers, Unused mapUnusedIO.
--
-- State is passed explicitly: an operation takes the machine, queue or tables and returns them. A
-- pointer to a struct that a machine owns is the struct; a table of pointers is a list of
-- options. Machine integers are numbers with the wrap-around written out. A result `none` or
-- out_of_bounds stands for what the C code leaves undefined (an index past a table, a shift out
-- of range) or for exit; the peer delay machines have the outcomes undefined and exit_failure. A
-- freed pointer is none, and reading it is undefined. A call of uscaledns_div that does not
-- return is none, and the outcome stuck of MDPdelayReq. The random first sequence id is a
-- parameter of MDPdelayReq and MDSyncSend. The loops of the machines run on fuel: five rounds for
-- PortStateSelection, twelve for PortAnnounceInformation, six for PortAnnounceTransmit (four for
-- PortAnnounceInformationExt), thirteen for MDPdelayReq, six for MDPdelayResp and MDSyncReceive
-- and five for MDSyncSend, which the theorems on the ends of their runs show to be enough; the
-- loop over the periods of a stream has fuel for 2049 rounds, enough for any period but 0, and
-- that of uscaledns_div, which doubles the divisor, for 97 tests, enough for any divisor but 0.
--
-- Not modelled: device registers, threads and sockets, log output, the JSON and DNP3 libraries,
-- and the machines that relay the time between ports with their floating-point rates. Handlers
-- that hold the buffer mutex throughout are single steps.
mod Prelude
pub mod Ptp
pub mod Frame
pub mod BufferQueue
pub mod Bmca
pub mod Pdelay
pub mod Sync
pub mod GateControl
pub mod Modbus
