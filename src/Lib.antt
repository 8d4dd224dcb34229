-- ===== src/Lib.antt =====
-- The IO-Link master stack of iol-hat/src-master-application/ilink, modelled layer by layer.
--
-- A port of the master has a data link layer, a system management, an application layer (AL), a
-- configuration manager, and the three services of the AL's clients: data storage (DS), on-request
-- data exchange (ODE) and process data exchange (PDE). Layers call one another directly or post a
-- job; one thread takes the jobs of a port in order and runs the callback of each. So a component is
-- a record for its part of the port, and one function for each callback, from the state before to the
-- state after and the list of the calls made of other layers. A sequence of jobs is a list of inputs.
--
-- Prelude        Boolean tests, C's unsigned widths, lists, and byte arrays with `memcpy`.
-- Types          iol-hat/src-master-application/include/ilink/iolink.h and iolink_types.h: codes,
--                and the calls between layers.
-- Ds             iol-hat/src-master-application/ilink/iolink_ds.h: the record of `iolink_ds_port_t`.
--   Actions, Fsm iol-hat/src-master-application/ilink/iolink_ds.c: the actions, the eighteen
--                transition tables and the loop `iolink_ds_event`.
--   Callbacks    the jobs: ds_startup_cb, ds_delete_cb, ds_upload_cb, ds_init_cb, ds_read_cnf_cb and
--                ds_write_cnf_cb. The functions that post them are the constructors of `Input`.
--   Smi          ds_SMI_ParServToDS_req.
--   Codec        the parameters of a device, and how a data set encodes them: the abstract view.
--   Events, Runs, Index, Upload, Replies, Backup   an upload, step by step and as a whole.
--   Decode, Restore, Handshake, RoundTrip          a download, and a download after an upload.
--   Termination, Bounds, Failures, Setup           the loop, the array, errors and configuration.
-- Ode            iol-hat/src-master-application/ilink/iolink_ode.h: the record of
--                `iolink_ode_port_t`, with the request that waits and the block of its client.
--   Actions      iol-hat/src-master-application/ilink/iolink_ode.c: the actions, the three tables
--                and the loop `iolink_ode_event`.
--   Callbacks    the jobs: od_start_cb, od_stop_cb, SMI_rw_req_cb, ode_read_cnf_cb and
--                ode_write_cnf_cb, and the entry points that post them.
--   Answers      requests and answers over any sequence of jobs.
--   Served, Transfers, Refusals   a whole read and write, and the requests that are not served.
-- Al             iol-hat/src-master-application/ilink/iolink_al.h: `od_state` and `service` of
--                `iolink_al_port_t`, and what the layer calls.
--   Errors       iol-hat/src-master-application/ilink/iolink_al.c: al_err_to_errortype and
--                al_status_to_errortype.
--   Actions, Fsm the actions, the four tables of on-request data and `iolink_al_od_event`.
--   Callbacks    al_read_write_cb, al_dl_readparam_cnf_cb, al_dl_writeparam_cnf_cb,
--                al_dl_isdu_transport_cnf_cb, al_abort_cb, and DL_ISDUTransport_cnf, whose copy of the
--                response runs before its job: two inputs, so that other jobs can come between.
--   Answers, Reported, Services    who is answered, which errors are told, a whole read and write.
--   Events       al_dl_event_ind_cb, al_event_rsp_cb, al_event_req_cb and the table of events. Its
--                actions raise no further event, so `iolink_al_event_event` is one round.
--   Collected, Diagnosis   what the diagnosis unit is told of the events of a device.
-- Dl             iol-hat/src-master-application/include/ilink/iolink_dl.h: `isdu_h_t`, with the fields
--                of `iolink_dl_t` that the handler of ISDUs reads.
--   Header       iol-hat/src-master-application/ilink/iolink_dl.c: calcCHKPDU, valid_isdu_header and
--                what the first bytes of an ISDU say.
--   Failing, Isdu   iolink_dl_isdu_h_sm and its states. An OD_req is a call in the list of calls.
--   Transport, Inputs   DL_ISDUTransport_req, DL_ReadWriteParam_req, IH_Conf, and the messages as the
--                handler of on-request data passes them on.
--   Format, Encoded     a request as a device reads it, and that DL_ISDUTransport_req lays it out so.
--   Segments, Sending, Request         the segments of a request.
--   Answer, Stored, First, Response    the segments of a response.
--   Command, Outputs    iolink_dl_cmd_h_sm, DL_Control_req and what goes out of its requests.
--   Counting, Confirmations, Recovery  which requests are confirmed, and how failed ones end.
--
-- Pde            iol-hat/src-master-application/ilink/iolink_pde.h: the record of
--                `iolink_pde_port_t`, with the process data of AL and DL and the port's status.
--   Data         AL_GetInput_req, AL_GetInputOutput_req and DL_PDInputTransport_ind of iolink_al.c, and
--                DL_PDOutputGet_req, DL_PDOutputUpdate_req and DL_Control_req of iolink_dl.c.
--   Checks, Callbacks   iol-hat/src-master-application/ilink/iolink_pde.c: pde_check_smi_req,
--                pde_SMI_PDIn_req, pde_SMI_PDOut_req, pde_SMI_PDInOut_req, PD_Start, PD_Stop and
--                AL_Control_ind.
--   Answers, Output, Written, Transfers   who is answered, what the device is told of its outputs, and
--                outputs that are written and read back.
--
-- Sm             iol-hat/src-master-application/ilink/iolink_sm.h: the record of `iolink_sm_port_t`,
--                and the lists, modes and addresses of iolink_types.h that it uses.
--   Mseq         iol-hat/src-master-application/ilink/iolink_sm.c: populate_valuelist and its helpers.
--   Actions, Fsm, Startup, Callbacks, Confirmations   the actions, the transition tables and
--                iolink_sm_event, the checks of a device, and the jobs.
--   Checked, Sound, Announced, Runs, Reached   which checks a device has passed in each state.
--   Partner      a conversation: the layers below and a device reply to each request of the port. What
--                DL does by itself is written out there, from iolink_dl_mode_h_sm and its messages.
--   Starting, Identified, Started   the start-up of a device that is as configured.
--   Lengths, Stuck   the messages that a device calls for, and an error while a device restarts.
--
-- Cm             iol-hat/src-master-application/ilink/iolink_cm.h: the record of `iolink_cm_port_t`
--                with the port's information, and what SM and DS tell it.
--   Config, Actions, Fsm, Callbacks   iol-hat/src-master-application/ilink/iolink_cm.c: the
--                translation of a configuration, the actions, iolink_cm_event, the jobs and services.
--   Served, Answers, Valid   who is answered, when the exchanges are started and stopped, and which
--                configuration is kept.
--
-- An unsigned field is a natural number, and an assignment that can wrap says so by `u8`, `u16` or
-- `u32`. An array of bytes is a function from the index, with no index refused: that data
-- storage stays inside its data set is a theorem. The buffer of a reply is such a function too, so
-- that what the code reads past the reply's length is any byte. CC_ASSERT (0) is a call
-- `assert_failed`, or one of AL, PDE, SM or CM. The static `older_cycletime` of SM, which all ports
-- share, is a field of the port, and IOLINKMASTER_USB_MODE_ENABLE and UNIT_TEST are not defined.
--
-- The event loop of DS runs on fuel 4 and those of ODE, AL and CM on fuel 2, which is what the longest
-- chain of transitions takes; theorems on all sequences of jobs show that it is enough. Loops over a
-- list or an array recur on the rounds left. DL has neither: one message is one step. Each
-- action of SM returns SM_EVENT_NONE, so its loop is one round. The time that
-- `os_get_current_time_us` gives is a part of the input, and may be any number.
--
-- Not modelled: the other handlers of the data link layer; what another layer answers is an
-- arbitrary input of the layer that asks. AL and DL are composed only for process data: a request for
-- an ISDU of the one is an input of the other. Nor are logging, the physical layer and the operating
-- system; the two threads' races, which the job queue excludes for all but the SMI services that run
-- on the caller's thread, and the lock that DL takes for its requests.
pub mod Prelude
pub mod Types
pub mod Ds
pub mod Ode
pub mod Pde
pub mod Sm
pub mod Cm
pub mod Al
pub mod Dl
