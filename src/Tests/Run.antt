-- ===== src/Tests/Run.antt =====
-- Opens the definitions of the program, and of the codes, for the runs of the tests.
unfoldable pub run : Unit {0}
unfolding fabric_gateway.Client.new_gateway_client fabric_gateway.Client.build_options
    fabric_gateway.Client.new_unary_callback fabric_gateway.Client.unary_call
    fabric_gateway.Client.evaluate fabric_gateway.Client.endorse fabric_gateway.Client.submit
    fabric_gateway.Client.commit_status fabric_gateway.Client.is_service_error
    fabric_gateway.Client.convert_error fabric_gateway.Client.wrap_async_iterator
    fabric_gateway.Client.chaincode_events fabric_gateway.Commit.set_signature
    fabric_gateway.Commit.is_signed fabric_gateway.Commit.get_transaction_id
    fabric_gateway.Commit.get_bytes fabric_gateway.Commit.new_status
    fabric_gateway.Commit.get_status fabric_gateway.Commit.get_result
    fabric_gateway.Contract.get_qualified_transaction_name fabric_gateway.Contract.new_proposal
    fabric_gateway.Contract.evaluate fabric_gateway.Contract.submit_async
    fabric_gateway.Contract.submit fabric_gateway.Contract.evaluate_transaction
    fabric_gateway.Contract.submit_transaction fabric_gateway.Errors.assert_defined
    fabric_gateway.Events.new_chaincode_event fabric_gateway.Events.next
    fabric_gateway.Events.new_chaincode_events fabric_gateway.Events.Request.get_start_position
    fabric_gateway.Events.Request.new_chaincode_events_request_proto
    fabric_gateway.Events.Request.new_chaincode_events_request_impl
    fabric_gateway.Events.Request.build fabric_gateway.Events.Request.set_signature
    fabric_gateway.Events.Request.is_signed fabric_gateway.Events.Request.get_bytes
    fabric_gateway.Events.Request.get_events fabric_gateway.Gateway.internal_connect
    fabric_gateway.Gateway.connect fabric_gateway.Gateway.get_identity
    fabric_gateway.Gateway.get_network fabric_gateway.Gateway.new_signed_proposal
    fabric_gateway.Gateway.new_signed_transaction fabric_gateway.Gateway.new_signed_commit
    fabric_gateway.Gateway.new_signed_chaincode_events_request
    fabric_gateway.GatewayErrors.buffer_from fabric_gateway.GatewayErrors.traverse
    fabric_gateway.GatewayErrors.concat fabric_gateway.GatewayErrors.read_status
    fabric_gateway.GatewayErrors.read_detail fabric_gateway.GatewayErrors.new_gateway_error
    fabric_gateway.Js.Buffer.utf8 fabric_gateway.Js.Buffer.to_hex
    fabric_gateway.Js.Number.to_number_nat fabric_gateway.Js.Number.to_number
    fabric_gateway.Js.Object.get fabric_gateway.Js.Object.put fabric_gateway.Js.Object.assign
    fabric_gateway.Js.Text.number_to_string fabric_gateway.Network.get_name
    fabric_gateway.Network.get_contract fabric_gateway.Network.new_chaincode_events_request
    fabric_gateway.Network.get_chaincode_events fabric_gateway.Proposal.new_proposal_impl
    fabric_gateway.Proposal.set_signature fabric_gateway.Proposal.is_signed
    fabric_gateway.Proposal.get_transaction_id fabric_gateway.Proposal.get_bytes
    fabric_gateway.Proposal.new_evaluate_request fabric_gateway.Proposal.new_endorse_request
    fabric_gateway.Proposal.new_prepared_transaction fabric_gateway.Proposal.evaluate
    fabric_gateway.Proposal.endorse fabric_gateway.ProposalBuilder.new_proposal_builder
    fabric_gateway.ProposalBuilder.as_bytes fabric_gateway.ProposalBuilder.get_args_as_bytes
    fabric_gateway.ProposalBuilder.put_bytes fabric_gateway.ProposalBuilder.get_transient_data
    fabric_gateway.ProposalBuilder.set_entries fabric_gateway.ProposalBuilder.new_chaincode_id
    fabric_gateway.ProposalBuilder.new_chaincode_input
    fabric_gateway.ProposalBuilder.new_chaincode_spec
    fabric_gateway.ProposalBuilder.new_chaincode_invocation_spec
    fabric_gateway.ProposalBuilder.new_chaincode_proposal_payload
    fabric_gateway.ProposalBuilder.new_chaincode_header_extension
    fabric_gateway.ProposalBuilder.new_channel_header fabric_gateway.ProposalBuilder.new_header
    fabric_gateway.ProposalBuilder.new_proposal fabric_gateway.ProposalBuilder.new_signed_proposal
    fabric_gateway.ProposalBuilder.new_proposed_transaction fabric_gateway.ProposalBuilder.build
    fabric_gateway.Signing.new_signing_identity fabric_gateway.Signing.get_identity
    fabric_gateway.Signing.get_creator fabric_gateway.Signing.hash fabric_gateway.Signing.sign
    fabric_gateway.Signing.Signable.get_digest fabric_gateway.Signing.Signable.sign_if_unsigned
    fabric_gateway.Status.status_name fabric_gateway.Status.new_commit_error
    fabric_gateway.ProposalBuilder.Invocation.read_invocation
    fabric_gateway.Contract.get_chaincode_name fabric_gateway.Contract.get_contract_name
    fabric_gateway.Js.Text.trim fabric_gateway.Identity.Hsm.number_of
    fabric_gateway.Identity.Hsm.canonical fabric_gateway.Identity.Hsm.check_options
    fabric_gateway.Identity.Hsm.find_slot fabric_gateway.Identity.Hsm.find_slot_for_label
    fabric_gateway.Identity.Hsm.log_in fabric_gateway.Identity.Hsm.find_object_in_hsm
    fabric_gateway.Identity.Hsm.find_key fabric_gateway.Identity.Hsm.set_up
    fabric_gateway.Identity.Hsm.new_signer fabric_gateway.Identity.Hsm.close
    fabric_gateway.Identity.Hsm.sign_digest fabric_gateway.Identity.Hsm.new_hsm_signer_factory
    fabric_gateway.Identity.Hsm.dispose fabric_gateway.Identity.Signers.get_curve
    fabric_gateway.Identity.Signers.new_ec_private_key_signer
    fabric_gateway.Identity.Signers.new_private_key_signer fabric_gateway.Tests.Codec.char_by
    fabric_gateway.Tests.Codec.via fabric_gateway.Tests.Codec.string fabric_gateway.Tests.Codec.pair
    fabric_gateway.Tests.Codec.option fabric_gateway.Tests.Codec.list
    fabric_gateway.Tests.Codec.wire fabric_gateway.Transaction.new_transaction_impl
    fabric_gateway.Transaction.set_signature fabric_gateway.Transaction.is_signed
    fabric_gateway.Transaction.get_result fabric_gateway.Transaction.get_transaction_id
    fabric_gateway.Transaction.new_submit_request
    fabric_gateway.Transaction.new_commit_status_request fabric_gateway.Transaction.get_bytes
    fabric_gateway.Transaction.new_signed_commit_status_request
    fabric_gateway.Transaction.new_submitted_transaction fabric_gateway.Transaction.submit
    fabric_gateway.TransactionContext.context_of
    fabric_gateway.TransactionContext.new_transaction_context
    fabric_gateway.TransactionParser.parse_result_from_transaction_action
    fabric_gateway.TransactionParser.no_proposal_response
    fabric_gateway.TransactionParser.parse_first
    fabric_gateway.TransactionParser.parse_result_from_payload
    fabric_gateway.TransactionParser.parse_channel_name_from_header
    fabric_gateway.TransactionParser.parse_transaction_envelope
    fabric_gateway.Scenario.Context.new_event_listener
    fabric_gateway.Scenario.Context.new_gateway_context fabric_gateway.Scenario.Context.get_gateway
    fabric_gateway.Scenario.Context.current_network fabric_gateway.Scenario.Context.current_contract
    fabric_gateway.Scenario.Context.get_chaincode_event_listener
    fabric_gateway.Scenario.Context.close_chaincode_events fabric_gateway.Scenario.Context.close
    fabric_gateway.Scenario.Context.use_network fabric_gateway.Scenario.Context.use_contract
    fabric_gateway.Scenario.Context.new_transaction
    fabric_gateway.Scenario.Context.Listening.set_listener
    fabric_gateway.Scenario.Context.Listening.next_chaincode_event
    fabric_gateway.Scenario.Context.connect_to fabric_gateway.Scenario.Context.Listening.open_events
    fabric_gateway.Scenario.Context.Listening.listen_for_chaincode_events
    fabric_gateway.Scenario.Fabric.Organizations.get_org_for_msp
    fabric_gateway.Scenario.Fabric.initial_peers fabric_gateway.Scenario.Fabric.new_fabric
    fabric_gateway.Scenario.Fabric.docker_command
    fabric_gateway.Scenario.Fabric.docker_command_with_tls
    fabric_gateway.Scenario.Fabric.docker_down fabric_gateway.Scenario.Fabric.keep_running
    fabric_gateway.Scenario.Fabric.start_network fabric_gateway.Scenario.Fabric.deploy_network
    fabric_gateway.Scenario.Fabric.generate_hsm_user fabric_gateway.Scenario.Fabric.stop_peer
    fabric_gateway.Scenario.Fabric.start_peer fabric_gateway.Scenario.Fabric.start_all_peers
    fabric_gateway.Scenario.Fabric.Chaincode.mangled_name
    fabric_gateway.Scenario.Fabric.Chaincode.query_sequence
    fabric_gateway.Scenario.Fabric.Chaincode.install_on
    fabric_gateway.Scenario.Fabric.Chaincode.install
    fabric_gateway.Scenario.Fabric.Chaincode.query_package
    fabric_gateway.Scenario.Fabric.Chaincode.approve
    fabric_gateway.Scenario.Fabric.Chaincode.keep_policy
    fabric_gateway.Scenario.Fabric.Chaincode.define
    fabric_gateway.Scenario.Fabric.Chaincode.deploy_chaincode
    fabric_gateway.Scenario.Fabric.Channels.join_peer
    fabric_gateway.Scenario.Fabric.Channels.join_org
    fabric_gateway.Scenario.Fabric.Channels.keep_joined
    fabric_gateway.Scenario.Fabric.Channels.create_channel
    fabric_gateway.Scenario.Fabric.Channels.join_channels
    fabric_gateway.Scenario.Fabric.Channels.create_channels
    fabric_gateway.Scenario.Fixtures.get_credentials_path
    fabric_gateway.Scenario.Fixtures.read_certificate fabric_gateway.Scenario.Fixtures.new_identity
    fabric_gateway.Scenario.Fixtures.read_private_key fabric_gateway.Scenario.Fixtures.new_signer
    fabric_gateway.Scenario.Invocation.get_invoke
    fabric_gateway.Scenario.Invocation.new_transaction_invocation
    fabric_gateway.Scenario.Invocation.set_offline_signer
    fabric_gateway.Scenario.Invocation.get_result_text fabric_gateway.Scenario.Invocation.get_error
    fabric_gateway.Scenario.Invocation.get_block_number
    fabric_gateway.Scenario.Invocation.sign_offline fabric_gateway.Scenario.Invocation.evaluate
    fabric_gateway.Scenario.Invocation.submit_for_status fabric_gateway.Scenario.Invocation.submit
    fabric_gateway.Scenario.Invocation.run fabric_gateway.Scenario.Invocation.invoke_transaction
    fabric_gateway.Scenario.Utils.bytes_as_string fabric_gateway.Scenario.Utils.to_string
    fabric_gateway.Scenario.Utils.to_error fabric_gateway.Scenario.Utils.assert_defined
    fabric_gateway.Scenario.World.get_current_gateway fabric_gateway.Scenario.World.get_transaction
    fabric_gateway.Scenario.World.add_context fabric_gateway.Scenario.World.use_gateway
    fabric_gateway.Scenario.World.on_current fabric_gateway.Scenario.World.use_network
    fabric_gateway.Scenario.World.use_contract fabric_gateway.Scenario.World.prepare_transaction
    fabric_gateway.Scenario.World.set_arguments fabric_gateway.Scenario.World.set_transient_data
    fabric_gateway.Scenario.World.set_endorsing_orgs
    fabric_gateway.Scenario.World.next_chaincode_event
    fabric_gateway.Scenario.World.close_chaincode_events fabric_gateway.Scenario.World.get_result
    fabric_gateway.Scenario.World.last_error
    fabric_gateway.Scenario.World.get_last_committed_block_number
    fabric_gateway.Scenario.World.close fabric_gateway.Scenario.World.Calls.create_gateway
    fabric_gateway.Scenario.World.Calls.create_gateway_without_signer
    fabric_gateway.Scenario.World.Calls.set_offline_signer
    fabric_gateway.Scenario.World.Calls.connect
    fabric_gateway.Scenario.World.Calls.listen_for_chaincode_events
    fabric_gateway.Scenario.World.Calls.replay_chaincode_events
    fabric_gateway.Scenario.World.Calls.invoke_transaction
    fabric_gateway.Scenario.World.Calls.invoke_successful_transaction
    fabric_gateway.Scenario.World.Calls.assert_transaction_fails fabric_gateway.Effect.Whole.discard
    fabric_gateway.Scenario.Details.expected_details fabric_gateway.Scenario.Details.check_details
    fabric_gateway.Scenario.Details.error_details_should_be
    fabric_gateway.Scenario.World.get_error_of_type fabric_gateway.Js.Object.delete
    fabric_gateway.Js.Hex.from_hex fabric_gateway.Scenario.Ski.get_uncompressed_point_on_curve
    fabric_gateway.Scenario.Ski.get_ski_from_certificate
    fabric_gateway.Scenario.Fabric.Library.try_path_names
    fabric_gateway.Scenario.Fabric.Library.find_soft_hsm_pkcs11_lib
    fabric_gateway.Scenario.HsmUsers.read_hsm_certificate
    fabric_gateway.Scenario.HsmUsers.new_hsm_identity
    fabric_gateway.Scenario.HsmUsers.new_hsm_signer
    fabric_gateway.Scenario.World.Calls.create_gateway_with_hsm_user
    fabric_gateway.Scenario.Steps.parse_json fabric_gateway.Scenario.Steps.response_should_match
    fabric_gateway.Scenario.Steps.should_receive fabric_gateway.Scenario.Steps.perform
    fabric_gateway.Scenario.Running.run_steps fabric_gateway.Gateway.close
    fabric_gateway.Samples.Runtime.call fabric_gateway.Samples.Runtime.call_hsm
    fabric_gateway.Samples.Runtime.attempt fabric_gateway.Samples.Runtime.log
    fabric_gateway.Samples.Runtime.close_connection fabric_gateway.Samples.Runtime.try_finally
    fabric_gateway.Samples.Runtime.try_catch fabric_gateway.Samples.Runtime.iso_timestamp
    fabric_gateway.Samples.Basic.new_grpc_connection fabric_gateway.Samples.Basic.new_identity
    fabric_gateway.Samples.Basic.new_signer fabric_gateway.Samples.Basic.run_examples
    fabric_gateway.Samples.Basic.main fabric_gateway.Samples.Basic.start
    fabric_gateway.Samples.Basic.Examples.example_submit
    fabric_gateway.Samples.Basic.Examples.example_submit_async
    fabric_gateway.Samples.Basic.Examples.example_submit_private_data
    fabric_gateway.Samples.Basic.Examples.example_submit_private_data2
    fabric_gateway.Samples.Basic.Examples.example_state_based_endorsement
    fabric_gateway.Samples.Basic.Listening.error_lines
    fabric_gateway.Samples.Basic.Listening.example_chaincode_events
    fabric_gateway.Samples.Basic.Listening.example_chaincode_event_replay
    fabric_gateway.Samples.Basic.Listening.example_error_handling
    fabric_gateway.Samples.Hsm.new_grpc_connection
    fabric_gateway.Samples.Hsm.find_soft_hsm_pkcs11_lib
    fabric_gateway.Samples.Hsm.get_uncompressed_point_on_curve
    fabric_gateway.Samples.Hsm.get_ski_from_certificate fabric_gateway.Samples.Hsm.new_hsm_signer
    fabric_gateway.Samples.Hsm.example_submit fabric_gateway.Samples.Hsm.main
    fabric_gateway.Samples.Hsm.start
run = tt
